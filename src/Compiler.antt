-- ===== src/Compiler.antt =====
-- compiler/src/compiler.rs: the units that depend on a unit.
pub mod Importers
mod Tests
use live_programming_prototy.Prelude.{
  ℕ, zero, suc, ◌+◌, Bool, true, false, List, [], ◌∷◌, ◌++◌, if◌then◌else◌, elem, length, Outcome,
  ok, err, panicked, out_of_fuel,
}
use live_programming_prototy.Store.{CodeStore, importers_of, get_importers}

-- `uids` and `queue` of `find_all_dependents`, which the loop changes
pub record Dependents : Type 0 where
  pub uids : List ℕ
  pub queue : List ℕ

-- The loop over the importers
unfoldable pub add_importers : List ℕ → Dependents → Dependents
add_importers [] d = d
add_importers (i ∷ is) d =
    let rest = add_importers is in
    if elem i d.uids then rest d else rest (record { uids = i ∷ d.uids; queue = d.queue ++ i ∷ [] })

-- The loop over the queue; the fuel bounds its rounds.
unfoldable pub dependents : ℕ → List (ℕ × ℕ) → Dependents → Outcome ⊥ (List ℕ)
dependents zero imports d = out_of_fuel
dependents (suc fuel) imports d = elim d.queue [
  | [] ↦ ok d.uids
  | uid ∷ queue ↦
      dependents fuel imports
        (add_importers (importers_of uid imports) (record { uids = d.uids; queue = queue }))
]

-- `find_all_dependents`
unfoldable pub find_all_dependents : {L : Type 0} → CodeStore L → ℕ → Outcome ⊥ (List ℕ)
find_all_dependents s uid =
    dependents (length s.imports + 2) s.imports (record { uids = uid ∷ []; queue = uid ∷ [] })
