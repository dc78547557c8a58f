-- ===== src/ManagerHost/Spec.antt =====
-- The node table (managerhost.cpp) against a function from IDs to texts.
use nat.Prelude.{
  Str, str_eq, str_eq_sound, Option-cases, Bool-cases, inl, inr, Option, none, some, true, not,
  ◌&&◌, List, [], ◌∷◌, ◌≡◌, refl, ◌∙◌, if◌then◌else◌,
}
use nat.StdMap.{StdMap, find, has, find-insert, find-assign}
use nat.ManagerHost.{ManagerHost, HostInfo, add_new_node, delete_node, change_node}

-- The calls that a client of the table makes.
pub data Op : Type 0 where
  add change : Str → Str → Op
  delete : HostInfo → Op

unfoldable pub apply : Op → ManagerHost → ManagerHost
unfolding add_new_node change_node delete_node
apply (add id info) m = (add_new_node id info m).1
apply (change id info) m = (change_node id info m).1
apply (delete host) m = (delete_node host m).1

unfoldable pub apply_all : List Op → ManagerHost → ManagerHost
apply_all [] m = m
apply_all (op ∷ ops) m = apply_all ops (apply op m)

-- The abstract table.
abbrev pub Table : Type 0
Table = Str → Option Str

-- The text under an ID that is new, and under one that is there.
abbrev pub put_new : Str → Option Str → Option Str
put_new info none = some info
put_new info (some old) = some old

abbrev pub put_old : Str → Option Str → Option Str
put_old info none = none
put_old info (some old) = some info

-- Adding keeps the first text, changing wants one, and deleting does nothing.
unfoldable pub specified : Op → Table → Table
specified (add id info) t j = if str_eq id j then put_new info (t j) else t j
specified (change id info) t j = if str_eq id j then put_old info (t j) else t j
specified (delete host) t j = t j

unfoldable pub specified_all : List Op → Table → Table
specified_all [] t = t
specified_all (op ∷ ops) t = specified_all ops (specified op t)

abbrev pub view : ManagerHost → Table
view m j = find j m.host_list

put_new-add :
    (id j info : Str) (m : StdMap Str)
    → str_eq id j ≡ true
    → (if str_eq id j && not (has id m) then some info else find j m) ≡ put_new info (find j m)
put_new-add id j info m e =
    rw (e, str_eq_sound id j e)
      (elim (Option-cases (find j m)) [ inl h ↦ rw (has, h) refl | inr (v, h) ↦ rw (has, h) refl ])

put_old-change :
    (id j info : Str) (m : StdMap Str)
    → str_eq id j ≡ true
    → (if str_eq id j && has id m then some info else find j m) ≡ put_old info (find j m)
put_old-change id j info m e =
    rw (e, str_eq_sound id j e)
      (elim (Option-cases (find j m)) [ inl h ↦ rw (has, h) refl | inr (v, h) ↦ rw (has, h) refl ])

view-apply : (op : Op) (m : ManagerHost) (j : Str) → view (apply op m) j ≡ specified op (view m) j
unfolding apply specified add_new_node change_node delete_node
view-apply (add id info) m j =
    find-insert id j info m.host_list ∙ (elim (Bool-cases (str_eq id j)) [
      | inl e ↦ put_new-add id j info m.host_list e ∙ rw e refl
      | inr e ↦ rw e refl
    ])
view-apply (change id info) m j =
    find-assign id j info m.host_list ∙ (elim (Bool-cases (str_eq id j)) [
      | inl e ↦ put_old-change id j info m.host_list e ∙ rw e refl
      | inr e ↦ rw e refl
    ])
view-apply (delete host) m j = refl

specified_congr :
    (op : Op) (t u : Table)
    → ((j : Str) → t j ≡ u j)
    → (j : Str) → specified op t j ≡ specified op u j
unfolding specified
specified_congr (add id info) t u h j = rw (h j) refl
specified_congr (change id info) t u h j = rw (h j) refl
specified_congr (delete host) t u h j = h j

specified_all_congr :
    (ops : List Op) (t u : Table)
    → ((j : Str) → t j ≡ u j)
    → (j : Str) → specified_all ops t j ≡ specified_all ops u j
unfolding specified_all
specified_all_congr [] t u h j = h j
specified_all_congr (op ∷ ops) t u h j =
    specified_all_congr ops (specified op t) (specified op u) (specified_congr op t u h) j

-- Over any sequence of its calls the table behaves as the function from IDs to texts in which adding
-- gives a text to an ID that has none, changing gives a new one to an ID that has one, and deleting
-- does nothing at all.
pub view-apply_all :
    (ops : List Op) (m : ManagerHost) (j : Str)
    → view (apply_all ops m) j ≡ specified_all ops (view m) j
unfolding apply_all specified_all
view-apply_all [] m j = refl
view-apply_all (op ∷ ops) m j =
    view-apply_all ops (apply op m) j
    ∙ specified_all_congr ops (view (apply op m)) (specified op (view m)) (view-apply op m) j
