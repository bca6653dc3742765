-- ===== src/Examples/Drains.antt =====
-- A drain of two ingresses, of which one carries a finalizer, in a cluster whose patches fail.
use ngrok_operator.Common.{
  String, Bool, true, false, Option, none, some, [], ◌∷◌, ◌≡◌, refl, ◌==◌, string_eq, if◌then◌else◌,
}
use ngrok_operator.Drain.{
  items, no_match, Deletion, deleted, gone, Cluster, retain_policy, delete_policy, drain_all,
  drain_list, is_complete, has_finalizer,
}
use ngrok_operator.Drain.Laws.{
  IsCounted, drain_all-IsCounted, drain_list-total, deleting_by, drain_all-retains,
}

-- Objects are names; a name is that of a marked object or not. Patches answer with an error or not.
abbrev cluster : Option String → Cluster Unit Bool
cluster reply = record {
  namespace = λ o. "shop";
  name = λ o. "web";
  contains_finalizer = λ o f. o;
  remove_finalizer = λ o f. (o, false);
  list =
      λ w kind. if kind == "Ingress" then items (true ∷ (false ∷ [])) else no_match "no such type";
  patch = λ w o. (reply, w);
  delete = λ w o. (deleted, w);
  get = λ w o. (gone, w);
}

drain_all-IsCounted_example :
    IsCounted (drain_all (cluster (some "conflict")) delete_policy 3 tt).0
    × (is_complete (drain_all (cluster (some "conflict")) delete_policy 3 tt).0 ≡ true)
drain_all-IsCounted_example = drain_all-IsCounted (cluster (some "conflict")) delete_policy 3 tt

-- Every type of resource can be listed.
abbrev listing : Cluster Unit Bool
listing = record (cluster none) { list = λ w kind. items (true ∷ []) }

drain_list-total_example :
    (drain_list
      (cluster none)
      delete_policy
      3
      (record { kind = "Ingress"; skip_no_match = false; is_user = true })
      tt).0.total
    ≡ 1
unfolding has_finalizer
drain_list-total_example =
    drain_list-total (cluster none) delete_policy 3
      (record { kind = "Ingress"; skip_no_match = false; is_user = true }) tt (true ∷ (false ∷ []))
      refl

drain_all-retains_example :
    drain_all
      (deleting_by (cluster none) (λ w o. (Deletion.delete_failed "no", w)))
      retain_policy
      3
      tt
    ≡ drain_all (cluster none) retain_policy 3 tt
drain_all-retains_example =
    drain_all-retains (cluster none) (λ w o. (Deletion.delete_failed "no", w)) 3 tt
