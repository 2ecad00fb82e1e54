-- ===== src/Tests/Reconcile.antt =====
-- The theorems on reconciliation and on the archive at concrete rows.
use kvorum.Base.{Bool-cases, ◌≡◌, refl, inl, inr, Option, some, List, [], ◌∷◌, str_eq}
use kvorum.Sources.Reconcile.{StaleRow, ReconcileBound, Attempt, transient_rpc_error}
use kvorum.Sources.Reconcile.Streaks.{new_driver, attempts, told, ticked, ticked-told}
use kvorum.Sources.MutableLatest.{MutableLatestItem, Archive, before_write, behind_write}
use kvorum.Sources.MutableLatest.Deliveries.{IsDelivered, deliver-IsDelivered}
use kvorum.Sources.MutableLatest.Tries.{IsConsistent, deliver}

abbrev stale : StaleRow
stale = record { id = "p"; source_id = "s"; source_type = "governor"; chain_id = "1" }

abbrev mainnet : ReconcileBound
mainnet = record { chain_id = "1"; confirmed_threshold_block = 100 }

abbrev no_rpc : StaleRow → ReconcileBound → Attempt
no_rpc row b = transient_rpc_error

abbrev two_ticks : List (List ReconcileBound × Option (List StaleRow))
two_ticks = (mainnet ∷ [], some (stale ∷ [])) ∷ (mainnet ∷ [], some (stale ∷ [])) ∷ []

ticked-told_example :
    (ticked 2 no_rpc two_ticks new_driver).events ≡ told 2 (attempts no_rpc two_ticks [])
ticked-told_example = ticked-told 2 no_rpc two_ticks

abbrev post : MutableLatestItem
post = record { external_id = "post"; content_hash = "new" }

abbrev stored : Archive
stored = record {
  events = record { external_id = "post"; content_hash = some "old"; version = some 3 } ∷ [];
  written = record { external_id = "post"; content_hash = "old"; version = 3 } ∷ [];
}

stored-IsConsistent : IsConsistent stored
stored-IsConsistent id = elim (Bool-cases (str_eq "post" id)) [
  | inl e ↦ rw e (refl, refl)
  | inr e ↦ rw e tt
]

deliver-IsDelivered_example :
    IsDelivered post stored (deliver post (before_write ∷ behind_write ∷ []) stored)
deliver-IsDelivered_example =
    deliver-IsDelivered post (before_write ∷ behind_write ∷ []) stored stored-IsConsistent
