-- ===== src/ManagerHost/Canonical.antt =====
-- The node table (managerhost.cpp) and the function from IDs to texts that it stands for: the one is as
-- good as the other.
use nat.Prelude.{Str, List, [], ◌∷◌, ◌≡◌, sym, ap, ◌∙◌, ◌↔◌}
use nat.StdMap.{find, IsSorted, insert-IsSorted, assign-IsSorted}
use nat.StdMap.Ext.{find-ext}
use nat.ManagerHost.{ManagerHost, add_new_node, delete_node, change_node, get_list}
use nat.ManagerHost.Spec.{
  Op, add, change, delete, apply, apply_all, specified_all, view, view-apply_all,
}

apply-IsSorted :
    (op : Op) (m : ManagerHost) → IsSorted m.host_list → IsSorted (apply op m).host_list
unfolding apply add_new_node change_node delete_node
apply-IsSorted (add id info) m s = insert-IsSorted id info m.host_list s
apply-IsSorted (change id info) m s = assign-IsSorted id info m.host_list s
apply-IsSorted (delete host) m s = s

pub apply_all-IsSorted :
    (ops : List Op) (m : ManagerHost) → IsSorted m.host_list → IsSorted (apply_all ops m).host_list
unfolding apply_all
apply_all-IsSorted [] m s = s
apply_all-IsSorted (op ∷ ops) m s = apply_all-IsSorted ops (apply op m) (apply-IsSorted op m s)

-- Two sequences of calls on a table in order leave the same list, entry for entry and in the same
-- order, just when they make the same of the function from IDs to texts.
pub get_list-apply_all :
    (ops others : List Op) (m : ManagerHost)
    → IsSorted m.host_list
    → ((j : Str) → specified_all ops (view m) j ≡ specified_all others (view m) j)
      ↔ (get_list (apply_all ops m) ≡ get_list (apply_all others m))
unfolding get_list
get_list-apply_all ops others m s = (
  λ h.
      find-ext (apply_all ops m).host_list (apply_all others m).host_list
        (apply_all-IsSorted ops m s) (apply_all-IsSorted others m s)
        (λ j. view-apply_all ops m j ∙ h j ∙ sym (view-apply_all others m j)),
  λ e j. sym (view-apply_all ops m j) ∙ ap (find j) e ∙ view-apply_all others m j,
)
