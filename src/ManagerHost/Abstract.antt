-- ===== src/ManagerHost/Abstract.antt =====
-- The node table (managerhost.cpp) as the quotient of the sequences of calls by what they make of the
-- function from IDs to texts.
use mathlib.Core.HLevel.{Σ_prop_path, Σ_set, ×_prop, prop→set}
use mathlib.Core.Bool.{Bool-set}
use mathlib.Core.Quot
use mathlib.Core.Quot.{Quot, Quot-set}
use nat.Prelude.{
  Str, str_eq, Option, none, some, List, [], ◌∷◌, ◌≡◌, refl, ◌∙◌, Bool-cases, Option-cases, inl,
  inr,
}
use nat.StdMap.{StdMap, find, IsSorted, Above}
use nat.StdMap.Ext.{find-ext}
use nat.ManagerHost.{ManagerHost, get_list}
use nat.ManagerHost.Spec.{Op, add, Table, apply_all, specified, specified_all, view, view-apply_all}
use nat.ManagerHost.Canonical.{apply_all-IsSorted, get_list-apply_all}

-- The table of a new node.
abbrev pub no_hosts : ManagerHost
no_hosts = record { host_list = [] }

-- Two sequences of calls make the same of the function.
abbrev pub SameCalls : List Op → List Op → Type 0
SameCalls ops others =
    (j : Str) → specified_all ops (view no_hosts) j ≡ specified_all others (view no_hosts) j

abbrev pub History : Type 0
History = Quot SameCalls

abbrev pub Ordered : Type 0
Ordered = (m : StdMap Str) × IsSorted m

Above-prop : (k : Str) (m : StdMap Str) → IsProp (Above k m)
Above-prop k [] = hlevel
Above-prop k ((j, v) ∷ m) = ×_prop (Bool-set _ _) (Above-prop k m)

IsSorted-prop : (m : StdMap Str) → IsProp (IsSorted m)
IsSorted-prop [] = hlevel
IsSorted-prop ((k, v) ∷ m) = ×_prop (Above-prop k m) (IsSorted-prop m)

Ordered-set : IsSet Ordered
Ordered-set = Σ_set (hlevel) (λ m. prop→set (IsSorted-prop m))

-- The calls that add the entries of a list.
unfoldable pub adds : StdMap Str → List Op
adds [] = []
adds ((k, v) ∷ m) = add k v ∷ adds m

or_else : Option Str → Option Str → Option Str
or_else none o = o
or_else (some v) o = some v

specified_all-adds :
    (m : StdMap Str) (t : Table) (j : Str) → specified_all (adds m) t j ≡ or_else (t j) (find j m)
unfolding adds specified_all specified find or_else
specified_all-adds [] t j = elim (Option-cases (t j)) [
  | inl e ↦ rw (or_else, e) refl
  | inr (v, e) ↦ rw (or_else, e) refl
]
specified_all-adds ((k, v) ∷ m) t j =
    specified_all-adds m (specified (add k v) t) j ∙ (elim (Option-cases (t j)) [
      | inl e ↦ elim (Bool-cases (str_eq k j)) [ inl h ↦ rw (h, e) refl | inr h ↦ rw (h, e) refl ]
      | inr (w, e) ↦ elim (Bool-cases (str_eq k j)) [
        | inl h ↦ rw (h, e) refl
        | inr h ↦ rw (h, e) refl
      ]
    ])

find-adds : (m : StdMap Str) (j : Str) → find j (apply_all (adds m) no_hosts).host_list ≡ find j m
unfolding or_else find
find-adds m j = view-apply_all (adds m) no_hosts j ∙ specified_all-adds m (view no_hosts) j ∙ refl

-- The table that a sequence of calls makes of a new one.
made : List Op → Ordered
made ops = ((apply_all ops no_hosts).host_list, apply_all-IsSorted ops no_hosts tt)

made_congr : (ops others : List Op) → SameCalls ops others → made ops ≡ made others
unfolding made get_list
made_congr ops others h =
    Σ_prop_path IsSorted-prop ((get_list-apply_all ops others no_hosts tt).0 h)

pub table : History → Ordered
unfolding made
table = Quot.lift Ordered-set made made_congr

pub calls : Ordered → History
calls m = Quot.mk (adds m.0)

-- The tables in order are the sequences of calls on a new one, two of them taken for the same where
-- they make the same of the function from IDs to texts: each way and back is the identity.
pub table-calls : ((m : Ordered) → table (calls m) ≡ m) × ((q : History) → calls (table q) ≡ q)
unfolding table calls made find or_else
table-calls = (
  λ m.
      Σ_prop_path IsSorted-prop
        (find-ext (made (adds m.0)).0 m.0 (made (adds m.0)).1 m.1 (find-adds m.0)),
  Quot.ind (λ q. Quot-set _ _)
      (λ ops.
        Quot.sound
          (λ j. specified_all-adds (made ops).0 (view no_hosts) j ∙ view-apply_all ops no_hosts j)),
)
