-- ===== src/Structure/Closed/Builders.antt =====
-- compiler/src/structure.rs: nodes made from others keep the state closed.
use live_programming_prototy.Prelude.{ℕ, List, [], ◌∷◌, none, All, All-map}
use live_programming_prototy.Common.{Text, codes}
use live_programming_prototy.Location.{TextLocation}
use live_programming_prototy.Expr.{ℤ}
use live_programming_prototy.Nodes.{Reference, reference, literal, int_val}
use live_programming_prototy.Structure.{Converter, cached, add_node, new_symbol, as_i64}
use live_programming_prototy.Structure.Builders.{
  add_int, let_var, add_array, add_call, unnamed, add_constructor, marker_struct, loc_struct,
  coerce_arguments, template_quote,
}
use live_programming_prototy.Structure.Closed.{Known, Maybe, Closed, Grows, Ends, Ends-bind}
use live_programming_prototy.Structure.Closed.Moves.{
  Any, Symbol, pure-Ends, cached-Ends, add_node-Ends, new_symbol-Ends,
}

abbrev pub AllKnown : Converter → List ℕ → Type 0
AllKnown s = All (Known s)

pub Known-keep : (s t : Converter) (i : ℕ) → Grows s t → Known s i → Known t i
Known-keep s t i g k = g.0 i k

pub Symbol-keep : (s t : Converter) (r : Reference) → Grows s t → Symbol s r → Symbol t r
Symbol-keep s t r g k = g.1 r.id k

pub AllKnown-keep : (s t : Converter) (ns : List ℕ) → Grows s t → AllKnown s ns → AllKnown t ns
AllKnown-keep s t ns g h = All-map (Known s) (Known t) ns g.0 h

pub add_int-Ends :
    (l : TextLocation) (i : ℤ) (s : Converter) → Closed s → Ends s Known (add_int l i s)
unfolding add_int
add_int-Ends l i s c = add_node-Ends l (literal (int_val i)) s c tt

pub let_var-Ends :
    (l : TextLocation) (r : Reference) (n : ℕ) (s : Converter)
    → Closed s
    → Symbol s r
    → Known s n
    → Ends s Known (let_var l r n s)
unfolding let_var
let_var-Ends l r n s c h k = add_node-Ends l _ s c (h, k)

pub add_array-Ends :
    (l : TextLocation) (ns : List ℕ) (s : Converter)
    → Closed s
    → AllKnown s ns
    → Ends s Known (add_array l ns s)
unfolding add_array
add_array-Ends l ns s c h = add_node-Ends l _ s c h

pub add_call-Ends :
    (l : TextLocation) (name : Text) (ns : List ℕ) (s : Converter)
    → Closed s
    → AllKnown s ns
    → Ends s Known (add_call l name ns s)
unfolding add_call
add_call-Ends l name ns s c h =
    Ends-bind s Any Known (cached name) _ (cached-Ends name s c) λ name' t g d p.
      Ends-bind t Known Known (add_node l (reference name' none)) _ (add_node-Ends l _ t d tt)
        λ f u g' d' k.
          add_node-Ends l _ u d' (k, AllKnown-keep t u ns g' (AllKnown-keep s t ns g h))

unnamed-Known :
    (s : Converter) (ns : List ℕ)
    → AllKnown s ns
    → All (λ f. Maybe (Symbol s) f.0 × Known s f.1) (unnamed ns)
unnamed-Known s [] h = tt
unnamed-Known s (n ∷ ns) h = ((tt, h.0), unnamed-Known s ns h.1)

pub add_constructor-Ends :
    (l : TextLocation) (r : Reference) (ns : List ℕ) (s : Converter)
    → Closed s
    → Symbol s r
    → AllKnown s ns
    → Ends s Known (add_constructor l r ns s)
unfolding add_constructor
add_constructor-Ends l r ns s c h k = add_node-Ends l _ s c (h, unnamed-Known s ns k)

pub marker_struct-Ends :
    (l : TextLocation) (col line : ℕ) (s : Converter)
    → Closed s
    → Ends s Known (marker_struct l col line s)
unfolding marker_struct
marker_struct-Ends l col line s c =
    Ends-bind s Known Known (add_int l (as_i64 col)) _ (add_int-Ends l _ s c) λ a t g d p.
      Ends-bind t Known Known (add_int l (as_i64 line)) _ (add_int-Ends l _ t d) λ b u g' d' q.
        Ends-bind u Symbol Known (new_symbol (codes "text_marker") l) _ (new_symbol-Ends _ l u d')
          λ r v g'' d'' h. add_constructor-Ends l r (a ∷ b ∷ []) v d'' h (search (Known-keep))

pub loc_struct-Ends : (l : TextLocation) (s : Converter) → Closed s → Ends s Known (loc_struct l s)
unfolding loc_struct
loc_struct-Ends l s c =
    Ends-bind s Known Known (add_int l (as_i64 l.source)) _ (add_int-Ends l _ s c) λ a t g d p.
      Ends-bind t Known Known (marker_struct l l.start.col l.start.line) _
        (marker_struct-Ends l _ _ t d)
        λ b u g' d' q.
          Ends-bind u Known Known (marker_struct l l.end.col l.end.line) _
            (marker_struct-Ends l _ _ u d')
            λ e v g'' d'' r.
              Ends-bind v Symbol Known (new_symbol (codes "text_location") l) _
                (new_symbol-Ends _ l v d'')
                λ name w g3 d3 h.
                  add_constructor-Ends l name (a ∷ b ∷ e ∷ []) w d3 h (search (Known-keep))

coerce_arguments-Ends :
    (l : TextLocation) (ns : List ℕ) (s : Converter)
    → Closed s
    → AllKnown s ns
    → Ends s AllKnown (coerce_arguments l ns s)
unfolding coerce_arguments
coerce_arguments-Ends l [] s c h = pure-Ends AllKnown [] s c tt
coerce_arguments-Ends l (n ∷ ns) s c h =
    Ends-bind s Known AllKnown (loc_struct l) _ (loc_struct-Ends l s c) λ p t g d k.
      Ends-bind t Known AllKnown (add_call l (codes "sym") (n ∷ p ∷ [])) _
        (add_call-Ends l _ _ t d (g.0 n h.0, (k, tt)))
        λ v u g1 d1 k1.
          Ends-bind u Known AllKnown (add_call l (codes "&") (v ∷ [])) _
            (add_call-Ends l _ _ u d1 (k1, tt))
            λ a w g2 d2 k2.
              Ends-bind w AllKnown AllKnown (coerce_arguments l ns) _
                (coerce_arguments-Ends l ns w d2
                  (AllKnown-keep u w ns g2 (AllKnown-keep t u ns g1 (AllKnown-keep s t ns g h.1))))
                λ args x g3 d3 k3. pure-Ends AllKnown (a ∷ args) x d3 (g3.0 a k2, k3)

pub template_quote-Ends :
    (l : TextLocation) (q : ℕ) (ns : List ℕ) (s : Converter)
    → Closed s
    → Known s q
    → AllKnown s ns
    → Ends s Known (template_quote l q ns s)
unfolding template_quote
template_quote-Ends l q [] s c h k = pure-Ends Known q s c h
template_quote-Ends l q (n ∷ ns) s c h k =
    Ends-bind s AllKnown Known (coerce_arguments l (n ∷ ns)) _
      (coerce_arguments-Ends l (n ∷ ns) s c k)
      λ args t g d p.
        Ends-bind t Known Known (add_array l args) _ (add_array-Ends l args t d p)
          λ a u g' d' p'. add_call-Ends l _ _ u d' (search (Known-keep))
