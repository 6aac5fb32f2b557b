-- ===== src/Com/Entries/Validation.antt =====
-- src/ara/com/entry: how many options of each type an entry may hold, against the code's
-- validation.
use mathlib.Core.Path.{subst}
use adaptive_autosar.Prelude.{
  ℕ, suc, ◌+◌, ◌≤◌, ◌≡◌, refl, sym, ap, ◌∙◌, Bool, true, false, Option, none, some, List, [], ◌∷◌,
  ◌++◌, arith, Result, ok, ◌>>=◌, >>=-eq-ok, if◌then◌else◌, ◌==◌, ltb, Bool-cases, ◌⊎◌, inl, inr,
}
use adaptive_autosar.Com.Options.{
  OptionType, configuration, load_balancing, ipv4_endpoint, ipv6_endpoint, ipv4_multicast,
  ipv6_multicast, option_type_byte, SdOption, option_type,
}
use adaptive_autosar.Com.Options.RoundTrip.{option_type_of-byte}
use adaptive_autosar.Com.Entries.RoundTrip.{bare}
use adaptive_autosar.Com.Entries.{
  subscribing, entry_type_byte, Entry, SdEntry, service, eventgroup, base, with_base, same_type,
  any_of_type, contains_option, validate_base, validate_service, validate_eventgroup,
  validate_in_group, validate_option, add_first_option, add_second_option, push_first, push_second,
  is_acknowledge,
}

unfoldable pub count_type : List SdOption → OptionType → ℕ
count_type [] t = 0
count_type (o ∷ os) t =
    let rest = count_type os t in if same_type (option_type o) t then suc rest else rest

-- The options of a type in an entry, in both of its runs.
unfoldable pub count_options : Entry → OptionType → ℕ
count_options e t = count_type e.first_options t + count_type e.second_options t

-- The most options of a type that an entry may hold; `none` is no limit.
unfoldable pub service_limit : OptionType → Option ℕ
service_limit configuration = some 1
service_limit load_balancing = some 1
service_limit ipv4_endpoint = none
service_limit ipv6_endpoint = none
service_limit _ = some 0

-- `subscribing` and `acknowledged` tell which eventgroup entry it is.
unfoldable pub eventgroup_limit : Bool → Bool → OptionType → Option ℕ
eventgroup_limit true acknowledged ipv4_endpoint = none
eventgroup_limit true acknowledged ipv6_endpoint = none
eventgroup_limit sub true ipv4_multicast = some 1
eventgroup_limit sub true ipv6_multicast = some 1
eventgroup_limit sub acknowledged _ = some 0

unfoldable pub limit : SdEntry → OptionType → Option ℕ
unfolding service_limit eventgroup_limit
limit (service e minor) t = service_limit t
limit (eventgroup e counter id) t =
    eventgroup_limit (entry_type_byte e.type == entry_type_byte subscribing) (is_acknowledge e) t

unfoldable pub fewer : ℕ → Option ℕ → Bool
fewer n none = true
fewer n (some m) = ltb n m

any_of_type-count :
    (os : List SdOption) (t : OptionType) → any_of_type os t ≡ ltb 0 (count_type os t)
unfolding any_of_type count_type
any_of_type-count [] t = refl
any_of_type-count (o ∷ os) t = ground (arith, any_of_type-count os t)

contains_option-count :
    (e : Entry) (t : OptionType) → contains_option e t ≡ ltb 0 (count_options e t)
unfolding contains_option count_options
contains_option-count e t =
    ground (arith, any_of_type-count e.first_options t, any_of_type-count e.second_options t)

validate_service-fewer :
    (e : Entry) (t : OptionType)
    → validate_service e t ≡ fewer (count_options e t) (service_limit t)
unfolding validate_service validate_base service_limit fewer option_type_byte
validate_service-fewer e configuration = ground (arith, contains_option-count e configuration)
validate_service-fewer e load_balancing = ground (arith, contains_option-count e load_balancing)
validate_service-fewer e _ = ground arith

validate_eventgroup-fewer :
    (e : Entry) (t : OptionType)
    → validate_eventgroup e t
      ≡ fewer (count_options e t) (
          eventgroup_limit
            (entry_type_byte e.type == entry_type_byte subscribing)
            (is_acknowledge e)
            t)
unfolding validate_eventgroup validate_in_group validate_base eventgroup_limit fewer
    option_type_byte
validate_eventgroup-fewer e configuration = ground (arith, contains_option-count e configuration)
validate_eventgroup-fewer e load_balancing = ground (arith, contains_option-count e load_balancing)
validate_eventgroup-fewer e ipv4_multicast = ground (arith, contains_option-count e ipv4_multicast)
validate_eventgroup-fewer e ipv6_multicast = ground (arith, contains_option-count e ipv6_multicast)
validate_eventgroup-fewer e _ = ground arith

-- ValidateOption of both entry classes accepts an option exactly when the entry holds fewer
-- options of that type than a table of limits allows.
pub validate_option-fewer :
    (e : SdEntry) (o : SdOption)
    → validate_option e o ≡ fewer (count_options (base e) (option_type o)) (limit e (option_type o))
unfolding validate_option limit
validate_option-fewer (service e minor) o = validate_service-fewer e (option_type o)
validate_option-fewer (eventgroup e counter id) o = validate_eventgroup-fewer e (option_type o)

-- No type of option stands in the entry more often than its limit.
abbrev pub IsWithin : SdEntry → Type 0
IsWithin e = (t : OptionType) (m : ℕ) → limit e t ≡ some m → count_options (base e) t ≤ m

count_type-append :
    (os : List SdOption) (o : SdOption) (t : OptionType)
    → count_type (os ++ o ∷ []) t
      ≡ (if same_type (option_type o) t then suc (count_type os t) else count_type os t)
unfolding count_type
count_type-append [] o t = ground arith
count_type-append (x ∷ os) o t = ground (arith, count_type-append os o t)

byte_injective : (t u : OptionType) → option_type_byte t ≡ option_type_byte u → t ≡ u
byte_injective t u h = cc (option_type_of-byte t, option_type_of-byte u)

fewer→lt : (n m : ℕ) (l : Option ℕ) → fewer n l ≡ true → l ≡ some m → suc n ≤ m
unfolding fewer
fewer→lt n m l h e = ground arith

-- Adding one option to either run, as a change of the counts alone.
count-push :
    (os : List SdOption) (o : SdOption) (t : OptionType)
    → (count_type (os ++ o ∷ []) t ≡ count_type os t)
      ⊎ ((option_type o ≡ t) × (count_type (os ++ o ∷ []) t ≡ suc (count_type os t)))
count-push os o t = elim (Bool-cases (same_type (option_type o) t)) [
  | inl same ↦
      inr (byte_injective (option_type o) t (ground arith), rw (count_type-append os o t, same))
  | inr other ↦ inl (rw (count_type-append os o t, other))
]

-- What the counts of an entry and of the same entry with one more option say.
within_step :
    (e : SdEntry) (o : SdOption) (t : OptionType) (n m : ℕ)
    → IsWithin e
    → validate_option e o ≡ true
    → limit e t ≡ some m
    → (n ≡ count_options (base e) t) ⊎ ((option_type o ≡ t) × (n ≡ suc (count_options (base e) t)))
    → n ≤ m
within_step e o t n m w v l (inl same) = omega (arith, w t m l)
within_step e o t n m w v l (inr (type, more)) =
    let room : suc (count_options (base e) (option_type o)) ≤ m =
      fewer→lt _ m _ (sym (validate_option-fewer e o) ∙ v) (rw type l) in
    let kept : count_options (base e) (option_type o) ≡ count_options (base e) t =
      ap (count_options (base e)) type in
    omega arith

step_first :
    (b : Entry) (o : SdOption) (t : OptionType)
    → (count_options (push_first b o) t ≡ count_options b t)
      ⊎ ((option_type o ≡ t) × (count_options (push_first b o) t ≡ suc (count_options b t)))
unfolding count_options
step_first b o t = elim (count-push b.first_options o t) [
  | inl same ↦ inl (omega arith)
  | inr (type, more) ↦ inr (type, omega arith)
]

step_second :
    (b : Entry) (o : SdOption) (t : OptionType)
    → (count_options (push_second b o) t ≡ count_options b t)
      ⊎ ((option_type o ≡ t) × (count_options (push_second b o) t ≡ suc (count_options b t)))
unfolding count_options
step_second b o t = elim (count-push b.second_options o t) [
  | inl same ↦ inl (omega arith)
  | inr (type, more) ↦ inr (type, omega arith)
]

push_first-IsWithin :
    (e : SdEntry) (o : SdOption)
    → IsWithin e
    → validate_option e o ≡ true
    → IsWithin (with_base e (push_first (base e) o))
unfolding limit is_acknowledge
push_first-IsWithin (service b minor) o w v t m l =
    within_step (service b minor) o t _ m w v l (step_first b o t)
push_first-IsWithin (eventgroup b counter id) o w v t m l =
    within_step (eventgroup b counter id) o t _ m w v l (step_first b o t)

push_second-IsWithin :
    (e : SdEntry) (o : SdOption)
    → IsWithin e
    → validate_option e o ≡ true
    → IsWithin (with_base e (push_second (base e) o))
unfolding limit is_acknowledge
push_second-IsWithin (service b minor) o w v t m l =
    within_step (service b minor) o t _ m w v l (step_second b o t)
push_second-IsWithin (eventgroup b counter id) o w v t m l =
    within_step (eventgroup b counter id) o t _ m w v l (step_second b o t)

add_first_option-IsWithin :
    (e : SdEntry) (o : SdOption) {e' : SdEntry}
    → IsWithin e
    → add_first_option e o ≡ ok e'
    → IsWithin e'
unfolding add_first_option
add_first_option-IsWithin e o w h = elim (Bool-cases (validate_option e o)) [
  | inl v ↦ subst IsWithin (cc (rw v at h)) (push_first-IsWithin e o w v)
  | inr v ↦ cc (rw v at h)
]

add_second_option-IsWithin :
    (e : SdEntry) (o : SdOption) {e' : SdEntry}
    → IsWithin e
    → add_second_option e o ≡ ok e'
    → IsWithin e'
unfolding add_second_option
add_second_option-IsWithin e o w h = elim (Bool-cases (validate_option e o)) [
  | inl v ↦ subst IsWithin (cc (rw v at h)) (push_second-IsWithin e o w v)
  | inr v ↦ cc (rw v at h)
]

-- A sequence of calls: `true` adds to the first run, `false` to the second. The first exception
-- ends it.
unfoldable pub add_all : SdEntry → List (Bool × SdOption) → Result SdEntry
add_all e [] = ok e
add_all e ((true, o) ∷ adds) = add_first_option e o >>= λ e'. add_all e' adds
add_all e ((false, o) ∷ adds) = add_second_option e o >>= λ e'. add_all e' adds

add_all_keeps :
    (e : SdEntry) (adds : List (Bool × SdOption)) {e' : SdEntry}
    → IsWithin e
    → add_all e adds ≡ ok e'
    → IsWithin e'
unfolding add_all
add_all_keeps e [] w h = subst IsWithin (cc) w
add_all_keeps e ((true, o) ∷ adds) w h =
    let (next, added, later) = >>=-eq-ok (add_first_option e o) _ h in
    add_all_keeps next adds (add_first_option-IsWithin e o w added) later
add_all_keeps e ((false, o) ∷ adds) w h =
    let (next, added, later) = >>=-eq-ok (add_second_option e o) _ h in
    add_all_keeps next adds (add_second_option-IsWithin e o w added) later

bare-IsWithin : (e : SdEntry) → IsWithin (bare e)
unfolding count_options count_type
bare-IsWithin (service b minor) t m l = omega arith
bare-IsWithin (eventgroup b counter id) t m l = omega arith

-- After any sequence of AddFirstOption and AddSecondOption calls that throws nothing, from an
-- entry without options, no option type stands above its limit.
add_all-IsWithin :
    (e : SdEntry) (adds : List (Bool × SdOption)) {e' : SdEntry}
    → add_all (bare e) adds ≡ ok e'
    → IsWithin e'
add_all-IsWithin e adds h = add_all_keeps (bare e) adds (bare-IsWithin e) h
