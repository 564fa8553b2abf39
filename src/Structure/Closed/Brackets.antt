-- ===== src/Structure/Closed/Brackets.antt =====
-- compiler/src/structure.rs: labels, scopes and functions are left as they were entered.
use live_programming_prototy.Prelude.{
  ℕ, suc, ◌≡◌, refl, ap, List, [], ◌∷◌, All, arith, length, Outcome, ok, err, panicked, out_of_fuel,
}
use live_programming_prototy.Common.{next}
use live_programming_prototy.Location.{TextLocation}
use live_programming_prototy.Expr.{Expr, loc}
use live_programming_prototy.Nodes.{Reference, label}
use live_programming_prototy.Structure.{
  Converter, StructureError, Convert, ◌>>=◌, pass, pure, new_uid, add_node,
}
use live_programming_prototy.Structure.Builders.{
  ToNode, rest_of, pop_label, labelled_node, pop_scope, new_block_scope,
}
use live_programming_prototy.Structure.Definitions.{to_function_body, function_body, leave_function}
use live_programming_prototy.Structure.Closed.{Known, Full, Closed, Grows, Ends, Ends-after}
use live_programming_prototy.Structure.Closed.Moves.{Symbol, add_node-Ends, scopes-grow}

Full-rest_of : (l : ℕ) (ls xs : List ℕ) → Full ls → xs ≡ l ∷ ls → Full (rest_of xs)
Full-rest_of l ls xs f e = rw e f

pub labelled_node-Ends :
    (l : TextLocation) (f : Convert ℕ) (s : Converter)
    → ((t : Converter) → Closed t → Ends t Known (f t))
    → Closed s
    → Ends s Known (labelled_node l f s)
unfolding labelled_node new_uid next
labelled_node-Ends l f s h c = on_outcome (f entered) (h entered (c.0, c.1, tt, c.3))
  where
    entered : Converter
    entered = record s {
      generator = (next s.generator).1;
      labels_in_scope = (next s.generator).0 ∷ s.labels_in_scope;
    }

    on_outcome :
        (o : Outcome StructureError (ℕ × Converter))
        → Ends entered Known o
        → Ends s Known
            (pass o (λ n. pop_label >>= (λ x. add_node l (label (next s.generator).0 n))))
    on_outcome (ok (n, u)) p =
        Ends-after s (record u { labels_in_scope = rest_of u.labels_in_scope }) Known _
          (p.0.0, p.0.1, ap rest_of p.0.2, p.0.3)
          (add_node-Ends l _ _ (p.1.0, p.1.1, Full-rest_of _ _ _ c.2 p.0.2, p.1.3) p.2)
    on_outcome (err e) p = tt
    on_outcome panicked p = p
    on_outcome out_of_fuel p = p

length-rest_of : {A : Type 0} (n : ℕ) (xs : List A) → length xs ≡ suc n → length (rest_of xs) ≡ n
length-rest_of n [] h = omega arith
length-rest_of n (x ∷ xs) h = omega arith

All-rest_of : {A : Type 0} (P : A → Type 0) (xs : List A) → All P xs → All P (rest_of xs)
All-rest_of P [] h = tt
All-rest_of P (x ∷ xs) h = h.1

Full-length : {A : Type 0} (xs ys : List A) → length ys ≡ length xs → Full xs → Full ys
Full-length xs (y ∷ ys) e f = tt
Full-length [] [] e f = f
Full-length (x ∷ xs) [] e f = absurd (omega arith)

module _ {A : Type 0} (P : Converter → A → Type 0)
    (stays : (s : Converter) (scopes : List (List Reference)) (a : A)
      → P s a
      → P (record s { block_scope = scopes }) a) where
  pub new_block_scope-Ends :
      (f : Convert A) (s : Converter)
      → ((t : Converter) → Closed t → Ends t P (f t))
      → Closed s
      → Ends s P (new_block_scope f s)
  unfolding new_block_scope
  new_block_scope-Ends f s h c = on_outcome (f entered) (h entered (c.0, (tt, c.1), c.2, tt))
    where
      entered : Converter
      entered = record s { block_scope = [] ∷ s.block_scope }

      on_outcome :
          (o : Outcome StructureError (A × Converter))
          → Ends entered P o
          → Ends s P (pass o (λ a. pop_scope >>= (λ x. pure a)))
      on_outcome (ok (a, u)) p =
          let same = length-rest_of (length s.block_scope) u.block_scope p.0.3 in
          (
            (p.0.0, p.0.1, p.0.2, same),
            (
              p.1.0,
              All-rest_of (All (Symbol u)) u.block_scope p.1.1,
              p.1.2,
              Full-length _ _ same c.3,
            ),
            stays u (rest_of u.block_scope) a p.2,
          )
      on_outcome (err e) p = tt
      on_outcome panicked p = p
      on_outcome out_of_fuel p = p

pub function_body-Ends :
    (rec : ToNode) (args : List Reference) (body : Expr) (s : Converter)
    → ((t : Converter) → Closed t → Ends t Known (rec body t))
    → Closed s
    → All (Symbol s) args
    → Ends s Known (function_body rec args body s)
unfolding function_body to_function_body labelled_node new_uid next add_node
function_body-Ends rec args body s h c k =
    on_outcome (rec body entered) (h entered (c.0, (k, tt), tt, tt))
  where
    entered : Converter
    entered = record s {
      generator = (next s.generator).1;
      labels_in_scope = (next s.generator).0 ∷ [];
      block_scope = args ∷ [];
    }

    on_outcome :
        (o : Outcome StructureError (ℕ × Converter))
        → Ends entered Known o
        → Ends s Known (
            pass
              (pass o
                (λ n. pop_label >>= (λ x. add_node (loc body) (label (next s.generator).0 n))))
              (leave_function s))
    on_outcome (ok (n, u)) p =
        let left : Converter = record u {
          labels_in_scope = s.labels_in_scope;
          block_scope = s.block_scope;
        } in
        let g : Grows s left = (p.0.0, p.0.1, refl, refl) in
        Ends-after s left Known (add_node (loc body) (label (next s.generator).0 n) left) g (
          add_node-Ends (loc body) (label (next s.generator).0 n) left
            (p.1.0, scopes-grow s left s.block_scope g c.1, c.2, c.3) p.2)
    on_outcome (err e) p = tt
    on_outcome panicked p = p
    on_outcome out_of_fuel p = p
