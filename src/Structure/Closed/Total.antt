-- ===== src/Structure/Closed/Total.antt =====
-- compiler/src/structure.rs: `to_nodes` returns closed nodes or an error.
use live_programming_prototy.Prelude.{
  ℕ, zero, suc, ◌≡◌, refl, true, false, List, [], ◌∷◌, Option, none, some, All, arith, Outcome, ok,
  err, panicked, out_of_fuel, lookup, nat_eq,
}
use live_programming_prototy.Common.{
  Text, codes, text_eq, UidGenerator, StringCache, next, cache_get,
}
use live_programming_prototy.Expr.{
  Expr, Exprs, expr, list, symbol, literal_string, literal_float, literal_int, literal_bool,
  literal_unit, nil, cons, loc,
}
use live_programming_prototy.Nodes.{Reference, Nodes, label, function_definition}
use live_programming_prototy.Structure.{
  Converter, StructureError, ◌>>=◌, pass, new_uid, cached, add_node, find_var,
}
use live_programming_prototy.Structure.Closed.{
  Present, Within, Known, Named, Maybe, Full, Closed, Ends, Ends-bind, Ends-if,
}
use live_programming_prototy.Structure.Closed.Moves.{
  Any, Symbol, cached-Ends, add_node-Ends, find_var-Symbol,
}
use live_programming_prototy.Structure.Closed.Fit.{
  Fit, Each, Good, Each-Fit, and_true, at_least_one, at_least_two, has_parts, shaped, shaped_all,
}
use live_programming_prototy.Structure.Builders.{ToNode, pop_label, labelled_node}
use live_programming_prototy.Structure.Convert.{
  invalid, unary_to_node, binary_to_node, fixed_to_node, construct_to_node, first_label, id_of,
  break_to_node, reference_to_node, symbol_to_node, literal_to_node, to_node_with, to_node, size,
  top_level_expression, new_converter, nodes_of, to_nodes,
}
use live_programming_prototy.Structure.Definitions.{to_function_body}
use live_programming_prototy.Structure.Closed.Definitions.{
  fun_to_node-Ends, union_to_node-Ends, struct_to_node-Ends,
}
use live_programming_prototy.Structure.Closed.Loops.{for_loop-Ends}
use live_programming_prototy.Structure.Closed.Quotes.{quote_to_node-Ends}
use live_programming_prototy.Structure.Closed.Constructs.{
  break_to-Ends, type_to_node-Ends, cbind_to_node-Ends, call_to_node-Ends, as_to_node-Ends,
  static_to_node-Ends, let_to_node-Ends, assignment_to_node-Ends,
}
use live_programming_prototy.Structure.Closed.Arms.{
  return_to_node-Ends, while_to_node-Ends, if_to_node-Ends, block_to_node-Ends, field_to_node-Ends,
  array_to_node-Ends, index_to_node-Ends,
}

break_to_node-Ends : (e : Expr) (s : Converter) → Closed s → Ends s Known (break_to_node e s)
unfolding break_to_node
break_to_node-Ends e s c =
    break_to-Ends e (first_label s.labels_in_scope) none s (first_label-Full s.labels_in_scope c.2)
      tt c
  where
    first_label-Full : (ls : List ℕ) → Full ls → (l : ℕ) × (first_label ls ≡ some l)
    first_label-Full [] f = absurd f
    first_label-Full (l ∷ ls) f = (l, refl)

id_of-Named :
    (s : Converter) (o : Option Reference) → Maybe (Symbol s) o → Maybe (Named s) (id_of o)
id_of-Named s none h = tt
id_of-Named s (some r) h = h

symbol_to_node-Ends :
    (e : Expr) (t : Text) (s : Converter) → Closed s → Ends s Known (symbol_to_node e t s)
unfolding symbol_to_node reference_to_node
symbol_to_node-Ends e t s c =
    Ends-if s Known (text_eq t (codes "break")) _ _ (λ h. break_to_node-Ends e s c)
      λ h. Ends-bind s Any Known (cached t) _ (cached-Ends t s c) λ name u g d p.
        add_node-Ends (loc e) _ u d
          (id_of-Named u (find_var t u.block_scope) (find_var-Symbol u t u.block_scope d.1))

module _ (n : ℕ) (rec : ToNode) (good : Good n rec) where
  unary_to_node-Ends :
      (e : Expr) (tag : Text) (a : Expr) (s : Converter)
      → Fit n a
      → Closed s
      → Ends s Known (unary_to_node rec e tag a s)
  unfolding unary_to_node invalid
  unary_to_node-Ends e tag a s f c =
      Ends-if s Known (text_eq tag (codes "static")) _ _
        (λ h. static_to_node-Ends n rec good e a s f c)
        λ h.
          Ends-if s Known (text_eq tag (codes "let")) _ _
            (λ h'. let_to_node-Ends n rec good e a s f c)
            λ h'.
              Ends-if s Known (text_eq tag (codes "type")) _ _ (λ k. type_to_node-Ends e a s c)
                λ k.
                  Ends-if s Known (text_eq tag (codes "#")) _ _
                    (λ k'. quote_to_node-Ends n rec good e a s f c)
                    λ k'.
                      Ends-if s Known (text_eq tag (codes "cbind")) _ _
                        (λ q. cbind_to_node-Ends e a s c) λ q. tt

  binary_to_node-Ends :
      (e : Expr) (tag : Text) (a b : Expr) (s : Converter)
      → Fit n a
      → Fit n b
      → Closed s
      → Ends s Known (binary_to_node rec e tag a b s)
  unfolding binary_to_node invalid
  binary_to_node-Ends e tag a b s f f' c =
      Ends-if s Known (text_eq tag (codes "as")) _ _ (λ h. as_to_node-Ends n rec good e a b s f c)
        λ h.
          Ends-if s Known (text_eq tag (codes "=")) _ _
            (λ h'. assignment_to_node-Ends n rec good e a b s f f' c)
            λ h'.
              Ends-if s Known (text_eq tag (codes "while")) _ _
                (λ k. while_to_node-Ends n rec good e a b s f f' c)
                λ k.
                  Ends-if s Known (text_eq tag (codes "for")) _ _
                    (λ k'. for_loop-Ends n rec good e a b s f f' c)
                    λ k'.
                      Ends-if s Known (text_eq tag (codes "union")) _ _
                        (λ q. union_to_node-Ends e a b s c)
                        λ q.
                          Ends-if s Known (text_eq tag (codes "struct")) _ _
                            (λ q'. struct_to_node-Ends e a b s f.1 c)
                            λ q'.
                              Ends-if s Known (text_eq tag (codes ".")) _ _
                                (λ r. field_to_node-Ends n rec good e a b s f c) λ r. tt

  fixed_to_node-Ends :
      (e : Expr) (tag : Text) (es : Exprs) (s : Converter)
      → Each (Fit n) es
      → Closed s
      → Ends s Known (fixed_to_node rec e tag es s)
  unfolding fixed_to_node invalid
  fixed_to_node-Ends e tag nil s f c = tt
  fixed_to_node-Ends e tag (cons a nil) s f c = unary_to_node-Ends e tag a s f.0 c
  fixed_to_node-Ends e tag (cons a (cons b nil)) s f c = binary_to_node-Ends e tag a b s f.0 f.1.0 c
  fixed_to_node-Ends e tag (cons a (cons b (cons b' es))) s f c = tt

-- What the three constructs that take their children apart ask for
has_parts-call :
    (tag : Text) (es : Exprs)
    → has_parts tag es ≡ true
    → text_eq tag (codes "call") ≡ true
    → at_least_one es ≡ true
has_parts-call tag es h k = ground arith

has_parts-if :
    (tag : Text) (es : Exprs)
    → has_parts tag es ≡ true
    → text_eq tag (codes "call") ≡ false
    → text_eq tag (codes "if") ≡ true
    → at_least_two es ≡ true
has_parts-if tag es h k l = ground arith

has_parts-index :
    (tag : Text) (es : Exprs)
    → has_parts tag es ≡ true
    → text_eq tag (codes "call") ≡ false
    → text_eq tag (codes "if") ≡ false
    → text_eq tag (codes "index") ≡ true
    → at_least_one es ≡ true
has_parts-index tag es h k l m = ground arith

module _ (n : ℕ) (rec : ToNode) (good : Good n rec) where
  construct_to_node-Ends :
      (e : Expr) (tag : Text) (es : Exprs) (s : Converter)
      → has_parts tag es ≡ true
      → Each (Fit n) es
      → Closed s
      → Ends s Known (construct_to_node rec e tag es s)
  unfolding construct_to_node
  construct_to_node-Ends e tag es s p f c =
      Ends-if s Known (text_eq tag (codes "call")) _ _
        (λ h. call_to_node-Ends n rec good e es s f (has_parts-call tag es p h) c)
        λ h1.
          Ends-if s Known (text_eq tag (codes "return")) _ _
            (λ h. return_to_node-Ends n rec good e es s f c)
            λ h2.
              Ends-if s Known (text_eq tag (codes "if")) _ _
                (λ h. if_to_node-Ends n rec good e es s f (has_parts-if tag es p h1 h) c)
                λ h3.
                  Ends-if s Known (text_eq tag (codes "block")) _ _
                    (λ h. block_to_node-Ends n rec good e es s f c)
                    λ h4.
                      Ends-if s Known (text_eq tag (codes "fun")) _ _
                        (λ h. fun_to_node-Ends n rec good e es s f c)
                        λ h5.
                          Ends-if s Known (text_eq tag (codes "array")) _ _
                            (λ h. array_to_node-Ends n rec good e es s f c)
                            λ h6.
                              Ends-if s Known (text_eq tag (codes "index")) _ _
                                (λ h.
                                  index_to_node-Ends n rec good e es s f
                                    (has_parts-index tag es p h1 h3 h) c)
                                λ h7. fixed_to_node-Ends n rec good e tag es s f c

  to_node_with-Ends :
      (e : Expr) → Fit (suc n) e → (s : Converter) → Closed s → Ends s Known (to_node_with rec e s)
  unfolding to_node_with literal_to_node size shaped
  to_node_with-Ends (expr l (list tag es)) f s c =
      let both = and_true (has_parts tag es) (shaped_all es) f.1 in
      construct_to_node-Ends (expr l (list tag es)) tag es s both.0
        (Each-Fit n es (omega arith) both.1) c
  to_node_with-Ends (expr l (symbol t)) f s c = symbol_to_node-Ends (expr l (symbol t)) t s c
  to_node_with-Ends (expr l (literal_string t)) f s c = add_node-Ends l _ s c tt
  to_node_with-Ends (expr l (literal_float t)) f s c = add_node-Ends l _ s c tt
  to_node_with-Ends (expr l (literal_int i)) f s c = add_node-Ends l _ s c tt
  to_node_with-Ends (expr l (literal_bool b)) f s c = add_node-Ends l _ s c tt
  to_node_with-Ends (expr l literal_unit) f s c = add_node-Ends l _ s c tt

to_node-Good : (n : ℕ) → Good n (to_node n)
unfolding to_node
to_node-Good zero e f s c = absurd (omega arith)
to_node-Good (suc n) e f s c = to_node_with-Ends n (to_node n) (to_node-Good n) e f s c

-- Each node stands under its id, the nodes and symbols that it names have entries, and so does the root.
abbrev pub IsClosed : Nodes → Type 0
IsClosed ns =
    All
      (λ n.
        (n.1.id ≡ n.0)
        × Within (λ i. Present (lookup i ns.nodes)) (λ i. Present (lookup i ns.symbols))
            n.1.content)
      ns.nodes
    × Present (lookup ns.root ns.nodes)

abbrev pub Converts : Outcome StructureError (Nodes × Converter) → Type 0
Converts (ok (ns, s)) = IsClosed ns
Converts (err e) = Unit
Converts panicked = ⊥
Converts out_of_fuel = ⊥

-- Out of any generator and cache, and from an expression in which every `call` has a function, every
-- `index` an array, and every `if` a condition and a branch, `to_nodes` returns an error or
-- nodes: it neither panics nor runs out of fuel, and then every node stands under its own id, every id of a
-- node or a symbol that a node names has an entry, and so does the root.
pub to_nodes-Converts :
    (generator : UidGenerator) (cache : StringCache) (e : Expr)
    → shaped e ≡ true
    → Converts (to_nodes generator cache e)
unfolding to_nodes top_level_expression cached cache_get to_function_body labelled_node new_uid next
    add_node
to_nodes-Converts generator cache e h =
    on_outcome (to_node (suc (size e)) e entered)
      (to_node-Good (suc (size e)) e (omega arith, h) entered (tt, (tt, tt), tt, tt))
  where
    entered : Converter
    entered = record (new_converter (next generator).1 (cache_get cache (codes "__top_level")).1) {
      labels_in_scope = (next generator).0 ∷ [];
    }

    on_outcome :
        (o : Outcome StructureError (ℕ × Converter))
        → Ends entered Known o
        → Converts (
            nodes_of (
              pass
                (pass o (λ n. pop_label >>= (λ x. add_node (loc e) (label (next generator).0 n))))
                (λ b. add_node (loc e) (function_definition (codes "__top_level") [] none [] b))))
    on_outcome (ok (n, u)) p =
        let q : Ends u Known (
            (add_node (loc e) (label (next generator).0 n) >>= (λ b.
                add_node (loc e) (function_definition (codes "__top_level") [] none [] b)))
              u) =
          Ends-bind u Known Known (add_node (loc e) (label (next generator).0 n))
            (λ b. add_node (loc e) (function_definition (codes "__top_level") [] none [] b))
            (add_node-Ends (loc e) _ u p.1 p.2)
            (λ b t g d k.
              add_node-Ends (loc e) (function_definition (codes "__top_level") [] none [] b) t d
                (tt, k)) in
        (q.1.0, q.2)
    on_outcome (err x) p = tt
    on_outcome panicked p = p
    on_outcome out_of_fuel p = p
