-- ===== src/Tests/Pool.antt =====
-- Runs of the connection pool, and its theorems there.
use grpcbridge.Base.{
  ℕ, ◌≡◌, ◌≢◌, refl, List, [], ◌∷◌, ◌++◌, Option, none, some, false, Bytes, codes, ◌⊎◌,
  bytes_discrete,
}
use grpcbridge.Adapter.Pool.{
  Pool, controller, dial_failed, new_pool, reserve, attach, finish_new, new_client, get,
  close_controller,
}
use grpcbridge.Adapter.Pool.Owners.{
  Calls, start_call, end_call, begins, ends, PoolReach, starts, steps, IsPool, PoolReach-IsPool,
  close_controller_lem, new_client_lem,
}

abbrev dial : Bytes → List ℕ → Option ℕ
dial address opts = some 7

abbrev refuse_dial : Bytes → List ℕ → Option ℕ
refuse_dial address opts = none

abbrev fresh : Pool ℕ
fresh = new_pool

abbrev dialing : Pool ℕ × Calls
dialing = (reserve (codes "a") fresh, start_call 0 (codes "a") (λ i. none))

abbrev dialed : Pool ℕ × Calls
dialed = (
  (finish_new 0 (codes "a") (some 7) (reserve (codes "a") fresh)).1,
  end_call 0 (start_call 0 (codes "a") (λ i. none)),
)

dialed-PoolReach : PoolReach dialed
dialed-PoolReach =
    steps dialing dialed
      (steps (fresh, λ i. none) dialing starts (begins fresh (λ i. none) (codes "a") refl))
      (ends (reserve (codes "a") fresh) (start_call 0 (codes "a") (λ i. none)) 0 (codes "a")
        (some 7) refl)

PoolReach-IsPool_example : IsPool dialed.0 dialed.1
PoolReach-IsPool_example = PoolReach-IsPool dialed dialed-PoolReach

dialed-IsPool : IsPool dialed.0 dialed.1
dialed-IsPool = PoolReach-IsPool dialed dialed-PoolReach

client_of_dialed : (dialed.0.controllers 0).client ≡ some 7
unfolding finish_new attach reserve
client_of_dialed = refl

open_of_dialed : (dialed.0.controllers 0).closed ≡ false
unfolding finish_new attach reserve
open_of_dialed = refl

close_controller_lem_example :
    (get dialed.0 (dialed.0.controllers 0).target ≡ some (some 7))
    × ((q : Pool ℕ) × (close_controller 0 dialed.0 ≡ some q)
        × (get q (dialed.0.controllers 0).target ≡ none)
        × ((t : Bytes) → t ≢ (dialed.0.controllers 0).target → get q t ≡ get dialed.0 t)
        × (q.closed_clients ≡ dialed.0.closed_clients ++ 7 ∷ [])
        × (close_controller 0 q ≡ none))
close_controller_lem_example =
    close_controller_lem dialed.0 dialed.1 0 7 dialed-IsPool client_of_dialed open_of_dialed

new_client_lem_example :
    ((conn : ℕ) × (refuse_dial (codes "host") ([] ++ []) ≡ some conn)
      × ((new_client refuse_dial [] (codes "a") (codes "host") [] fresh).0 ≡ controller 0)
      × (get (new_client refuse_dial [] (codes "a") (codes "host") [] fresh).1 (codes "a")
          ≡ some (some conn)))
    ⊎ ((refuse_dial (codes "host") ([] ++ []) ≡ none)
        × ((new_client refuse_dial [] (codes "a") (codes "host") [] fresh).0 ≡ dial_failed)
        × (get (new_client refuse_dial [] (codes "a") (codes "host") [] fresh).1 (codes "a")
            ≡ some none))
new_client_lem_example = new_client_lem refuse_dial [] (codes "a") (codes "host") [] fresh refl

dialing_has_entry : get dialing.0 (codes "a") ≢ none
unfolding get reserve bytes_discrete
dialing_has_entry = λ e. cc
