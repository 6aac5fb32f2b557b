-- ===== src/Com/Entries/Complete.antt =====
-- src/ara/com/entry: building an entry whose options keep within their limits by adding them in
-- turn.
use mathlib.Core.List.{append_assoc, append-nil}
use adaptive_autosar.Prelude.{
  ℕ, suc, ◌+◌, ◌<◌, ◌≡◌, refl, sym, ap, ◌∙◌, true, Option, none, some, List, [], ◌∷◌, ◌++◌, arith,
  Result, ok, ◌>>=◌,
}
use adaptive_autosar.Com.Options.{OptionType, SdOption, option_type}
use adaptive_autosar.Com.Entries.{
  SdEntry, service, eventgroup, base, with_base, is_acknowledge, validate_option, add_first_option,
  add_second_option,
}
use adaptive_autosar.Com.Entries.RoundTrip.{bare}
use adaptive_autosar.Com.Entries.Validation.{
  count_type, count_options, limit, fewer, validate_option-fewer, IsWithin,
}

-- Adding a list of options in turn.
unfoldable pub add_list :
    (SdEntry → SdOption → Result SdEntry) → SdEntry → List SdOption → Result SdEntry
add_list add e [] = ok e
add_list add e (o ∷ os) = add e o >>= λ e'. add_list add e' os

-- The entry with other runs of options.
abbrev runs : SdEntry → List SdOption → List SdOption → SdEntry
runs e firsts seconds =
    with_base e (record (base e) { first_options = firsts; second_options = seconds })

count_type-append :
    (xs ys : List SdOption) (t : OptionType)
    → count_type (xs ++ ys) t ≡ count_type xs t + count_type ys t
unfolding count_type
count_type-append [] ys t = omega arith
count_type-append (x ∷ xs) ys t = ground (arith, count_type-append xs ys t)

count_type_self :
    (o : SdOption) (os : List SdOption)
    → count_type (o ∷ os) (option_type o) ≡ suc (count_type os (option_type o))
unfolding count_type
count_type_self o os = ground arith

limit-runs :
    (e : SdEntry) (firsts seconds : List SdOption) (t : OptionType)
    → limit (runs e firsts seconds) t ≡ limit e t
unfolding limit is_acknowledge
limit-runs (service b minor) firsts seconds t = refl
limit-runs (eventgroup b counter id) firsts seconds t = refl

count-runs :
    (e : SdEntry) (firsts seconds : List SdOption) (t : OptionType)
    → count_options (base (runs e firsts seconds)) t ≡ count_type firsts t + count_type seconds t
unfolding count_options
count-runs (service b minor) firsts seconds t = refl
count-runs (eventgroup b counter id) firsts seconds t = refl

fewer_below : (n : ℕ) (l : Option ℕ) → ((m : ℕ) → l ≡ some m → n < m) → fewer n l ≡ true
unfolding fewer
fewer_below n none h = refl
fewer_below n (some m) h = ground (arith, h m refl)

accept :
    (e : SdEntry) (firsts seconds : List SdOption) (o : SdOption)
    → IsWithin e
    → count_type firsts (option_type o) + count_type seconds (option_type o)
      < count_options (base e) (option_type o)
    → validate_option (runs e firsts seconds) o ≡ true
accept e firsts seconds o w h =
    let t = option_type o in
    validate_option-fewer (runs e firsts seconds) o
    ∙ fewer_below _ _ (λ m l.
      omega
        (arith, h, w t m (sym (limit-runs e firsts seconds t) ∙ l), count-runs e firsts seconds t))

add_first_accept :
    (e : SdEntry) (firsts seconds : List SdOption) (o : SdOption)
    → validate_option (runs e firsts seconds) o ≡ true
    → add_first_option (runs e firsts seconds) o ≡ ok (runs e (firsts ++ o ∷ []) seconds)
unfolding add_first_option
add_first_accept (service b minor) firsts seconds o v = rw v
add_first_accept (eventgroup b counter id) firsts seconds o v = rw v

add_second_accept :
    (e : SdEntry) (firsts seconds : List SdOption) (o : SdOption)
    → validate_option (runs e firsts seconds) o ≡ true
    → add_second_option (runs e firsts seconds) o ≡ ok (runs e firsts (seconds ++ o ∷ []))
unfolding add_second_option
add_second_accept (service b minor) firsts seconds o v = rw v
add_second_accept (eventgroup b counter id) firsts seconds o v = rw v

add_firsts :
    (e : SdEntry) (done os : List SdOption)
    → IsWithin e
    → (base e).first_options ≡ done ++ os
    → add_list add_first_option (runs e done []) os ≡ ok (runs e (done ++ os) [])
unfolding add_list
add_firsts e done [] w h = rw append-nil
add_firsts e done (o ∷ os) w h =
    let t = option_type o in
    let room : count_type done t + count_type [] t < count_options (base e) t =
      unfold count_type count_options in
      omega (
        arith,
        ap (λ (xs : List SdOption). count_type xs t) h,
        count_type-append done (o ∷ os) t,
        count_type_self o os,
      ) in
    rw (add_first_accept e done [] o (accept e done [] o w room))
      (add_firsts e (done ++ o ∷ []) os w (rw append_assoc h) ∙ rw append_assoc)

add_seconds :
    (e : SdEntry) (done os : List SdOption)
    → IsWithin e
    → (base e).second_options ≡ done ++ os
    → add_list add_second_option (runs e (base e).first_options done) os
      ≡ ok (runs e (base e).first_options (done ++ os))
unfolding add_list
add_seconds e done [] w h = rw append-nil
add_seconds e done (o ∷ os) w h =
    let t = option_type o in
    let firsts = (base e).first_options in
    let room : count_type firsts t + count_type done t < count_options (base e) t =
      unfold count_options in
      omega (
        arith,
        ap (λ (xs : List SdOption). count_type xs t) h,
        count_type-append done (o ∷ os) t,
        count_type_self o os,
      ) in
    rw (add_second_accept e firsts done o (accept e firsts done o w room))
      (add_seconds e (done ++ o ∷ []) os w (rw append_assoc h) ∙ rw append_assoc)

runs_self : (e : SdEntry) → runs e (base e).first_options (base e).second_options ≡ e
runs_self (service b minor) = refl
runs_self (eventgroup b counter id) = refl

-- An entry with no option type above its limit is rebuilt by adding its options in turn to its
-- bare form: no call throws.
pub add_list-IsWithin :
    (e : SdEntry)
    → IsWithin e
    → (add_list add_first_option (bare e) (base e).first_options >>= λ e'.
        add_list add_second_option e' (base e).second_options)
      ≡ ok e
add_list-IsWithin e w = rw (
  add_firsts e [] (base e).first_options w refl,
  add_seconds e [] (base e).second_options w refl,
  runs_self e,
)
