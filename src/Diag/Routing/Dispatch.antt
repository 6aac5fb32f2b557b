-- ===== src/Diag/Routing/Dispatch.antt =====
-- src/ara/diag/routing/uds_service_router.cpp: which requests a change of the services concerns.
use adaptive_autosar.Prelude.{
  ℕ, ◌≡◌, ◌≢◌, refl, Bool, true, false, List, ◌∷◌, if◌then◌else◌, find-assign, find-assign_other,
  find-erase, find-erase_other, Result, ok, ap, ◌∙◌,
}
use adaptive_autosar.Diag.Routing.{
  RoutableUdsService, add_service, remove_service, offer, stop_offer, route, not_supported,
}

module _ {ℓ} {S : Type ℓ} where
  route-add_service :
      (services : List (ℕ × RoutableUdsService S)) (service : RoutableUdsService S) (s : S)
      (parameters : List ℕ)
      → route (add_service service services) s (service.sid ∷ parameters) ≡ (
          if service.offered
          then service.handle s (service.sid ∷ parameters)
          else ok (s, not_supported service.sid))
  unfolding route add_service
  route-add_service services service s parameters =
      rw (route, find-assign service.sid service services) refl

  route-add_service_other :
      (services : List (ℕ × RoutableUdsService S)) (service : RoutableUdsService S) (s : S)
      (sid : ℕ) (parameters : List ℕ)
      → service.sid ≢ sid
      → route (add_service service services) s (sid ∷ parameters)
        ≡ route services s (sid ∷ parameters)
  unfolding route add_service
  route-add_service_other services service s sid parameters ne =
      rw (route, find-assign_other service.sid sid service services ne) refl

  offer-fields :
      (sid : ℕ) (offered : Bool) (handle : S → List ℕ → Result (S × List ℕ))
      → (offer (record { sid = sid; offered = offered; handle = handle })).0
        ≡ record { sid = sid; offered = true; handle = handle }
  unfolding offer
  offer-fields sid true handle = refl
  offer-fields sid false handle = refl

  route-offered :
      (services : List (ℕ × RoutableUdsService S)) (service : RoutableUdsService S) (s : S)
      (parameters : List ℕ)
      → route (add_service (offer service).0 services) s (service.sid ∷ parameters)
        ≡ service.handle s (service.sid ∷ parameters)
  route-offered services service s parameters =
      ap (λ offered. route (add_service offered services) s (service.sid ∷ parameters))
        (offer-fields service.sid service.offered service.handle)
      ∙ route-add_service services (record service { offered = true }) s parameters

  -- Whatever the router held, a service that is added and offered handles the requests with its
  -- identifier; once it stops its offer, or is removed, they get the response that the service is
  -- not supported, and the state stays; requests with another identifier go where they went in each
  -- case.
  pub route-changes :
      (services : List (ℕ × RoutableUdsService S)) (service : RoutableUdsService S) (s : S)
      (other : ℕ) (parameters : List ℕ)
      → service.sid ≢ other
      → (route (add_service (offer service).0 services) s (service.sid ∷ parameters)
          ≡ service.handle s (service.sid ∷ parameters))
        × (route (add_service (stop_offer service) services) s (service.sid ∷ parameters)
            ≡ ok (s, not_supported service.sid))
        × (route (remove_service service.sid services) s (service.sid ∷ parameters)
            ≡ ok (s, not_supported service.sid))
        × (route (add_service service services) s (other ∷ parameters)
            ≡ route services s (other ∷ parameters))
        × (route (remove_service service.sid services) s (other ∷ parameters)
            ≡ route services s (other ∷ parameters))
  unfolding route remove_service offer stop_offer
  route-changes services service s other parameters ne = (
    route-offered services service s parameters,
    route-add_service services (stop_offer service) s parameters,
    rw (route, find-erase service.sid services) refl,
    route-add_service_other services service s other parameters ne,
    rw (route, find-erase_other service.sid other services ne) refl,
  )
