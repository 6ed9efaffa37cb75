-- ===== src/Publish/Reachable.antt =====
-- The runs of a publisher: the exported operations one after the other, in any order and with any
-- arguments, in a world that changes between them as it likes.
use mathlib.Core.List.{Mem}
use ai_model_gateway.Base.{String, Bool, List}
use ai_model_gateway.Publish.{Revision, Kind, Publisher, PublisherPolicy, ConfigInput, Environment}
use ai_model_gateway.Publish.Ledger.{new_publisher, set_policy}
use ai_model_gateway.Publish.Edits.{upsert_revision, replace_revisions, load_state}
use ai_model_gateway.Publish.Releases.{release}
use ai_model_gateway.Publish.Generated.{generate_id}
use ai_model_gateway.Publish.Updates.{update_config}
use ai_model_gateway.Publish.Invariant.{IsValid, ids, new_publisher-IsValid, set_policy-IsValid}
use ai_model_gateway.Publish.Valid.{
  upsert_revision-IsValid, replace_revisions-IsValid, load_state-IsValid,
}
use ai_model_gateway.Publish.Published.{release-IsValid}
use ai_model_gateway.Publish.Updated.{after_checks, update_config-IsValid}

module _ {W Config Fields : Type 0} (env : Environment W Config Fields) where
  pub data Step : Publisher Config → W → Publisher Config → W → Type 0 where
    elapse : (p : Publisher Config) (w w1 : W) → Step p w p w1
    sets_policy :
        (p : Publisher Config) (policy : PublisherPolicy) (w : W) → Step p w (set_policy p policy) w
    upserts :
        (p : Publisher Config) (r : Revision Config) (activate : Bool) (w : W)
        → Step p w (upsert_revision env p r activate w).1 (upsert_revision env p r activate w).2
    replaces :
        (p : Publisher Config) (rs : List (Revision Config)) (id : String) (w : W)
        → Step p w (replace_revisions env p rs id w).1 (replace_revisions env p rs id w).2
    loads : (p : Publisher Config) (w : W) → Step p w (load_state env p w).1 (load_state env p w).2
    releases :
        (kind : Kind) (p : Publisher Config) (id : String) (w : W)
        → Step p w (release env kind p id w).1 (release env kind p id w).2
    -- the clock gives a name that the ledger does not have
    updates :
        (p : Publisher Config) (input : ConfigInput Config Fields) (description : String) (w : W)
        → (¬ Mem (generate_id env "rev_" (after_checks env input w)).0 (ids p))
        → Step p w
            (update_config env p input description w).1
            (update_config env p input description w).2

  pub data Reached : Publisher Config → W → Type 0 where
    start : (w : W) → Reached new_publisher w
    step : {p q : Publisher Config} {w w1 : W} → Reached p w → Step p w q w1 → Reached q w1

  Step-IsValid :
      {p : Publisher Config} {w : W} {q : Publisher Config} {w1 : W}
      → Step p w q w1
      → IsValid p
      → IsValid q
  Step-IsValid (elapse p w w1) v = v
  Step-IsValid (sets_policy p policy w) v = set_policy-IsValid p policy v
  Step-IsValid (upserts p r activate w) v = upsert_revision-IsValid env p r activate w v
  Step-IsValid (replaces p rs id w) v = replace_revisions-IsValid env p rs id w v
  Step-IsValid (loads p w) v = load_state-IsValid env p w v
  Step-IsValid (releases kind p id w) v = release-IsValid env kind p id w v
  Step-IsValid (updates p input description w new) v =
      update_config-IsValid env p input description w v new

  -- Every ledger that a run from a new publisher reaches has trimmed, different names that are not
  -- empty, an active place in range, and publish records within a positive limit, where the clock
  -- gives `UpdateConfig` names that the ledger does not have.
  pub Reached-IsValid : (p : Publisher Config) (w : W) → Reached p w → IsValid p
  Reached-IsValid p w (start v) = new_publisher-IsValid
  Reached-IsValid p w (step r s) = Step-IsValid s (Reached-IsValid _ _ r)
