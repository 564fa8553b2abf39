-- ===== src/Structure/Closed/Moves.antt =====
-- compiler/src/structure.rs: the moves of the conversion keep the state closed.
use live_programming_prototy.Prelude.{
  ℕ, ◌≡◌, refl, List, [], ◌∷◌, Option, none, some, All, All-map, lookup, insert, lookup-insert,
  nat_eq, arith,
}
use live_programming_prototy.Common.{Text, next, cache_get}
use live_programming_prototy.Location.{TextLocation}
use live_programming_prototy.Expr.{Expr, loc, try_symbol, try_construct}
use live_programming_prototy.Nodes.{Reference, Content, Node}
use live_programming_prototy.Structure.{
  Converter, pure, new_uid, cached, put_node, add_node, put_symbol, new_symbol, add_var_to_scope,
  find_in, find_var, or_else, unwrap_symbol, unwrap_construct, expr_to_symbol,
}
use live_programming_prototy.Structure.Closed.{
  Present, Maybe, Within, Within-map, Known, Named, Full, InPlace, Closed, Grows, Ends, Grows-refl,
  Ends-bind, Ends-option,
}

abbrev pub Any {ℓ} : {A : Type ℓ} → Converter → A → Type 0
Any s a = Unit

abbrev pub Symbol : Converter → Reference → Type 0
Symbol s r = Named s r.id

All-insert :
    {V : Type 0} (P : ℕ × V → Type 0) (k : ℕ) (v : V) (m : List (ℕ × V))
    → P (k, v)
    → All P m
    → All P (insert k v m)
All-insert P k v [] p h = (p, tt)
All-insert P k v (x ∷ m) p h = ground (arith, All-insert P k v m p h.1)

Present-insert :
    {V : Type 0} (k j : ℕ) (v : V) (m : List (ℕ × V))
    → Present (lookup j m)
    → Present (lookup j (insert k v m))
Present-insert k j v m h = rw (lookup-insert k j v m) (ground (arith, nat_eq.same_iff k j))

Present-inserted :
    {V : Type 0} (k : ℕ) (v : V) (m : List (ℕ × V)) → Present (lookup k (insert k v m))
Present-inserted k v m = rw (lookup-insert k k v m) (ground (arith, nat_eq.same_iff k k))

-- A state that keeps what the other has is closed where that one is.
pub InPlace-grow :
    (s t : Converter) (m : List (ℕ × Node)) → Grows s t → All (InPlace s) m → All (InPlace t) m
InPlace-grow s t m g h =
    All-map (InPlace s) (InPlace t) m
      (λ n p. (p.0, Within-map (Known s) (Named s) (Known t) (Named t) g.0 g.1 n.1.content p.1)) h

pub scopes-grow :
    (s t : Converter) (scopes : List (List Reference))
    → Grows s t
    → All (All (Symbol s)) scopes
    → All (All (Symbol t)) scopes
scopes-grow s t scopes g h =
    All-map (All (Symbol s)) (All (Symbol t)) scopes
      (λ rs p. All-map (Symbol s) (Symbol t) rs (λ r. g.1 r.id) p) h

pub pure-Ends :
    {A : Type 0} (P : Converter → A → Type 0) (a : A) (s : Converter)
    → Closed s
    → P s a
    → Ends s P (pure a s)
pure-Ends P a s c h = (Grows-refl s, c, h)

pub new_uid-Ends : (s : Converter) → Closed s → Ends s Any (new_uid s)
unfolding new_uid next
new_uid-Ends s c = (Grows-refl s, c, tt)

pub cached-Ends : (t : Text) (s : Converter) → Closed s → Ends s Any (cached t s)
unfolding cached cache_get
cached-Ends t s c = (Grows-refl s, c, tt)

put_node-Ends :
    (i : ℕ) (l : TextLocation) (content : Content) (s : Converter)
    → Closed s
    → Within (Known s) (Named s) content
    → Ends s Known (put_node i l content s)
put_node-Ends i l content s c h = (g, (in_place, c.1, c.2, c.3), Present-inserted i node s.nodes)
  where
    node : Node
    node = record { id = i; content = content; loc = l }

    t : Converter
    t = record s { nodes = insert i node s.nodes }

    g : Grows s t
    g = (λ j p. Present-insert i j node s.nodes p, λ j p. p, refl, refl)

    in_place : All (InPlace t) t.nodes
    in_place =
        All-insert (InPlace t) i node s.nodes
          (refl, Within-map (Known s) (Named s) (Known t) (Named t) g.0 g.1 content h)
          (InPlace-grow s t s.nodes g c.0)

put_symbol-Ends : (r : Reference) (s : Converter) → Closed s → Ends s Symbol (put_symbol r s)
put_symbol-Ends r s c = (
  g,
  (InPlace-grow s t s.nodes g c.0, scopes-grow s t s.block_scope g c.1, c.2, c.3),
  Present-inserted r.id r s.symbols,
)
  where
    t : Converter
    t = record s { symbols = insert r.id r s.symbols }

    g : Grows s t
    g = (λ j p. p, λ j p. Present-insert r.id j r s.symbols p, refl, refl)

pub add_node-Ends :
    (l : TextLocation) (content : Content) (s : Converter)
    → Closed s
    → Within (Known s) (Named s) content
    → Ends s Known (add_node l content s)
unfolding add_node
add_node-Ends l content s c h = Ends-bind s Any Known new_uid _ (new_uid-Ends s c) λ i t g d p.
    put_node-Ends i l content t d
      (Within-map (Known s) (Named s) (Known t) (Named t) g.0 g.1 content h)

pub new_symbol-Ends :
    (name : Text) (l : TextLocation) (s : Converter)
    → Closed s
    → Ends s Symbol (new_symbol name l s)
unfolding new_symbol
new_symbol-Ends name l s c =
    Ends-bind s Any Symbol (cached name) _ (cached-Ends name s c) λ t u g d p.
      Ends-bind u Any Symbol new_uid _ (new_uid-Ends u d) λ i v g' d' p'. put_symbol-Ends _ v d'

pub add_var_to_scope-Ends :
    (r : Reference) (s : Converter) → Closed s → Symbol s r → Ends s Any (add_var_to_scope r s)
unfolding add_var_to_scope
add_var_to_scope-Ends r s c h = on_scopes s.block_scope refl c.1 c.3
  where
    on_scopes :
        (scopes : List (List Reference))
        → s.block_scope ≡ scopes
        → All (All (Symbol s)) scopes
        → Full scopes
        → Ends s Any (add_var_to_scope r s)
    on_scopes [] e k f = absurd f
    on_scopes (scope ∷ scopes) e k f =
        rw e ((λ i p. p, λ i p. p, refl, refl), (c.0, ((h, k.0), k.1), c.2, tt), tt)

-- What the scopes hold is found with its entry.
find_in-Symbol :
    (s : Converter) (name : Text) (scope : List Reference)
    → All (Symbol s) scope
    → Maybe (Symbol s) (find_in name scope)
unfolding find_in
find_in-Symbol s name [] h = tt
find_in-Symbol s name (r ∷ rs) h = ground (arith, find_in-Symbol s name rs h.1)

or_else-Maybe :
    (P : Reference → Type 0) (o p : Option Reference)
    → Maybe P o
    → Maybe P p
    → Maybe P (or_else o p)
or_else-Maybe P none p h k = k
or_else-Maybe P (some r) p h k = h

pub find_var-Symbol :
    (s : Converter) (name : Text) (scopes : List (List Reference))
    → All (All (Symbol s)) scopes
    → Maybe (Symbol s) (find_var name scopes)
unfolding find_var
find_var-Symbol s name [] h = tt
find_var-Symbol s name (scope ∷ scopes) h =
    or_else-Maybe (Symbol s) (find_in name scope) (find_var name scopes)
      (find_in-Symbol s name scope h.0) (find_var-Symbol s name scopes h.1)

pub unwrap_symbol-Ends : (e : Expr) (s : Converter) → Closed s → Ends s Any (unwrap_symbol e s)
unfolding unwrap_symbol
unwrap_symbol-Ends e s c =
    Ends-option s Any (try_symbol e) _ _ (λ h. tt) (λ t h. pure-Ends Any t s c tt)

pub expr_to_symbol-Ends : (e : Expr) (s : Converter) → Closed s → Ends s Symbol (expr_to_symbol e s)
unfolding expr_to_symbol
expr_to_symbol-Ends e s c =
    Ends-bind s Any Symbol (unwrap_symbol e) _ (unwrap_symbol-Ends e s c)
      λ name t g d p. new_symbol-Ends name (loc e) t d

pub unwrap_construct-Ends :
    (e : Expr) (s : Converter) → Closed s → Ends s Any (unwrap_construct e s)
unfolding unwrap_construct
unwrap_construct-Ends e s c =
    Ends-option s Any (try_construct e) _ _ (λ h. tt) (λ t h. pure-Ends Any t s c tt)
