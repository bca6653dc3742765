-- ===== src/Driver/Sync.antt =====
-- `Sync` of pkg/managerdriver/driver.go and `SyncEndpoints` of endpoints.go, behind the debouncer:
-- the order of their steps, and where an error ends them. The translation gives the desired maps;
-- writing statuses is a parameter.
use ngrok_operator.Common.{String, Bool, true, false, Option, none, some, List}
use ngrok_operator.Labels.{ControllerLabelValues}
use ngrok_operator.Driver.Apply.{Object, Client, Desired, apply_endpoints, list_for_controller}
use ngrok_operator.Driver.Domains.{Domains, DomainObject, apply_domains}
use ngrok_operator.Common.{Eq}

-- The next step, unless this one failed.
abbrev pub then_do : {W : Type 0} → Option String × W → (W → Option String × W) → Option String × W
then_do (some e, w) f = (some e, w)
then_do (none, w) f = f w

abbrev pub with_list :
    {W S : Type 0}
    → W
    → Option (List (Object S))
    → (List (Object S) → Option String × W)
    → Option String × W
with_list w none f = (some "list failed", w)
with_list w (some items) f = f items

module _ {W A C : Type 0} ⦃ea : Eq A⦄ ⦃ec : Eq C⦄ (agents : Client W A) (clouds : Client W C)
    (v : ControllerLabelValues) (desired_agents : Desired A) (desired_clouds : Desired C) where
  -- Both lists are read before anything is written.
  unfoldable pub sync_endpoints : W → Option String × W
  sync_endpoints w = with_list w (list_for_controller agents v w) λ current_agents.
      with_list w (list_for_controller clouds v w) λ current_clouds.
        then_do (apply_endpoints agents v desired_agents current_agents w)
          λ w1. apply_endpoints clouds v desired_clouds current_clouds w1

  module _
      (create_or_patch : W → String → String → (DomainObject → DomainObject) → Option String × W)
      (default_policy : Option String) (domains : Domains)
      (update_statuses : W → Option String × W) where
    unfoldable pub sync_all : W → Option String × W
    sync_all w = with_list w (list_for_controller agents v w) λ current_agents.
        with_list w (list_for_controller clouds v w) λ current_clouds.
          then_do (apply_domains create_or_patch v default_policy domains w) λ w1.
            then_do (apply_endpoints agents v desired_agents current_agents w1) λ w2.
              then_do (apply_endpoints clouds v desired_clouds current_clouds w2) update_statuses

    -- Nothing is done while the operator drains.
    unfoldable pub sync : Bool → W → Option String × W
    unfolding sync_all
    sync true w = (none, w)
    sync false w = sync_all w
