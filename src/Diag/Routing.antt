-- ===== src/Diag/Routing.antt =====
-- src/ara/diag/routing/routable_uds_service.cpp and uds_service_router.cpp. A service handles a
-- request on a state that it may share with other services (as the transfer services share
-- `TransferData`), so the virtual `HandleMessage` is a field that takes and returns that state.
pub mod Dispatch
use adaptive_autosar.Prelude.{
  ℕ, Bool, true, false, Option, none, some, List, [], ◌∷◌, if◌then◌else◌, find, assign, erase,
  Result, ok, throws, invalid_argument,
}

pub record RoutableUdsService {ℓ} (S : Type ℓ) : Type ℓ where
  pub sid : ℕ
  pub offered : Bool
  pub handle : S → List ℕ → Result (S × List ℕ)

-- `GenerateNegativeResponse`.
unfoldable pub negative_response : ℕ → ℕ → List ℕ
negative_response sid nrc = 0x7f ∷ sid ∷ nrc ∷ []

-- What `Route` answers for a service that is not there or not offered.
unfoldable pub not_supported : ℕ → List ℕ
not_supported sid = 0x7f ∷ sid ∷ 0x11 ∷ []

module _ {ℓ} {S : Type ℓ} where
  -- `Offer`: the service, and whether the call succeeded. A service that is offered already is an
  -- error.
  unfoldable pub offer : RoutableUdsService S → RoutableUdsService S × Bool
  offer service =
      if service.offered then (service, false) else (record service { offered = true }, true)

  unfoldable pub stop_offer : RoutableUdsService S → RoutableUdsService S
  stop_offer service = record service { offered = false }

  -- `AddService`.
  unfoldable pub add_service :
      RoutableUdsService S → List (ℕ × RoutableUdsService S) → List (ℕ × RoutableUdsService S)
  add_service service services = assign service.sid service services

  -- `RemoveService`.
  unfoldable pub remove_service :
      ℕ → List (ℕ × RoutableUdsService S) → List (ℕ × RoutableUdsService S)
  remove_service sid services = erase sid services

  unfoldable pub route : List (ℕ × RoutableUdsService S) → S → List ℕ → Result (S × List ℕ)
  route services s [] = throws invalid_argument
  route services s (sid ∷ parameters) = elim (find sid services) [
    | none ↦ ok (s, not_supported sid)
    | some service ↦
        if service.offered then service.handle s (sid ∷ parameters) else ok (s, not_supported sid)
  ]
