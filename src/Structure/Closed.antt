-- ===== src/Structure/Closed.antt =====
-- compiler/src/structure.rs: the state in which every id that a node names has its entry.
pub mod Moves
pub mod Fit
pub mod Builders
pub mod Brackets
pub mod Definitions
pub mod Constructs
pub mod Loops
pub mod Arms
pub mod Quotes
pub mod Total
use live_programming_prototy.Prelude.{
  ℕ, ◌≡◌, refl, ◌∙◌, List, [], ◌∷◌, Option, none, some, Bool, true, false, if◌then◌else◌, All,
  All-map, lookup, nat_eq, length, Outcome, ok, err, panicked, out_of_fuel,
}
use live_programming_prototy.Nodes.{
  Reference, Content, Node, literal, variable_initialise, type_alias, assignment, if_then,
  if_then_else, block, quote, reference, function_definition, cbind, type_definition,
  type_constructor, field_access, array_literal, function_call, while_loop, convert, size_of, label,
  break_to_label,
}
use live_programming_prototy.Structure.{Converter, StructureError, Convert, pass, ◌>>=◌}

abbrev pub Present {ℓ} : {A : Type ℓ} → Option A → Type 0
Present none = ⊥
Present (some a) = Unit

-- What holds of an optional id
abbrev pub Maybe {ℓ} : {A : Type ℓ} → (A → Type 0) → Option A → Type 0
Maybe P none = Unit
Maybe P (some a) = P a

-- The nodes and the symbols that a content names
module _ (K N : ℕ → Type 0) where
  abbrev pub Within : Content → Type 0
  Within (literal v) = Unit
  Within (variable_initialise r t n scope) = N r.id × K n
  Within (type_alias a t) = Unit
  Within (assignment a b) = K a × K b
  Within (if_then c a) = K c × K a
  Within (if_then_else c a b) = K c × K a × K b
  Within (block ns) = All K ns
  Within (quote e) = Unit
  Within (reference name r) = Maybe N r
  Within (function_definition name args tag vars body) = All (λ a. N a.0.id) args × K body
  Within (cbind name t) = Unit
  Within (type_definition name k fields vars) = All (λ a. N a.0.id) fields
  Within (type_constructor r fields) =
      N r.id × All (λ f. Maybe (λ (x : Reference). N x.id) f.0 × K f.1) fields
  Within (field_access n r) = K n × N r.id
  Within (array_literal ns) = All K ns
  Within (function_call f ns) = K f × All K ns
  Within (while_loop c b) = K c × K b
  Within (convert n t) = K n
  Within (size_of t) = Unit
  Within (label l n) = K n
  Within (break_to_label l v) = Maybe K v

Maybe-map :
    {A : Type 0} (P Q : A → Type 0) (o : Option A) → ((a : A) → P a → Q a) → Maybe P o → Maybe Q o
Maybe-map P Q none f h = tt
Maybe-map P Q (some a) f h = f a h

module _ (K N K' N' : ℕ → Type 0) (k : (i : ℕ) → K i → K' i) (n : (i : ℕ) → N i → N' i) where
  Within-map : (c : Content) → Within K N c → Within K' N' c
  Within-map (literal v) h = tt
  Within-map (variable_initialise r t v scope) h = (n _ h.0, k _ h.1)
  Within-map (type_alias a t) h = tt
  Within-map (assignment a b) h = (k _ h.0, k _ h.1)
  Within-map (if_then c a) h = (k _ h.0, k _ h.1)
  Within-map (if_then_else c a b) h = (k _ h.0, k _ h.1, k _ h.2)
  Within-map (block ns) h = All-map K K' ns k h
  Within-map (quote e) h = tt
  Within-map (reference name r) h = Maybe-map N N' r n h
  Within-map (function_definition name args tag vars body) h =
      (All-map (λ a. N a.0.id) (λ a. N' a.0.id) args (λ a. n _) h.0, k _ h.1)
  Within-map (cbind name t) h = tt
  Within-map (type_definition name kind fields vars) h =
      All-map (λ a. N a.0.id) (λ a. N' a.0.id) fields (λ a. n _) h
  Within-map (type_constructor r fields) h = (
    n _ h.0,
    All-map _ _ fields
        (λ f p. (Maybe-map (λ (x : Reference). N x.id) (λ x. N' x.id) f.0 (λ x. n _) p.0, k _ p.1))
        h.1,
  )
  Within-map (field_access v r) h = (k _ h.0, n _ h.1)
  Within-map (array_literal ns) h = All-map K K' ns k h
  Within-map (function_call f ns) h = (k _ h.0, All-map K K' ns k h.1)
  Within-map (while_loop c b) h = (k _ h.0, k _ h.1)
  Within-map (convert v t) h = k _ h
  Within-map (size_of t) h = tt
  Within-map (label l v) h = k _ h
  Within-map (break_to_label l v) h = Maybe-map K K' v k h

abbrev pub Known : Converter → ℕ → Type 0
Known s i = Present (lookup i s.nodes)

abbrev pub Named : Converter → ℕ → Type 0
Named s i = Present (lookup i s.symbols)

abbrev pub Full {ℓ} : {A : Type ℓ} → List A → Type 0
Full [] = ⊥
Full (x ∷ xs) = Unit

-- A node stands under its own id, and what it names is there.
abbrev pub InPlace : Converter → ℕ × Node → Type 0
InPlace s (i, n) = (n.id ≡ i) × Within (Known s) (Named s) n.content

-- There are a label to leave and a scope to add to, and all ids have their entries.
abbrev pub Closed : Converter → Type 0
Closed s =
    All (InPlace s) s.nodes
    × All (All (λ r. Named s r.id)) s.block_scope
    × Full s.labels_in_scope
    × Full s.block_scope

-- Nothing is lost from the one state to the other, and the labels and the number of scopes stay.
abbrev pub Grows : Converter → Converter → Type 0
Grows s t =
    ((i : ℕ) → Known s i → Known t i)
    × ((i : ℕ) → Named s i → Named t i)
    × (t.labels_in_scope ≡ s.labels_in_scope)
    × (length t.block_scope ≡ length s.block_scope)

-- The routine ends with an error, or in a closed state with a result that has the property.
abbrev pub Ends :
    {A : Type 0}
    → Converter
    → (Converter → A → Type 0)
    → Outcome StructureError (A × Converter)
    → Type 0
Ends s P (ok (a, t)) = Grows s t × Closed t × P t a
Ends s P (err e) = Unit
Ends s P panicked = ⊥
Ends s P out_of_fuel = ⊥

pub Grows-refl : (s : Converter) → Grows s s
Grows-refl s = (λ i h. h, λ i h. h, refl, refl)

pub Grows-trans : (s t u : Converter) → Grows s t → Grows t u → Grows s u
Grows-trans s t u g h = (λ i k. h.0 i (g.0 i k), λ i k. h.1 i (g.1 i k), h.2 ∙ g.2, h.3 ∙ g.3)

Ends-after :
    {A : Type 0} (s t : Converter) (P : Converter → A → Type 0)
    (o : Outcome StructureError (A × Converter))
    → Grows s t
    → Ends t P o
    → Ends s P o
Ends-after s t P (ok (a, u)) g h = (Grows-trans s t u g h.0, h.1, h.2)
Ends-after s t P (err e) g h = tt
Ends-after s t P panicked g h = h
Ends-after s t P out_of_fuel g h = h

pub Ends-bind :
    {A B : Type 0} (s : Converter) (P : Converter → A → Type 0) (Q : Converter → B → Type 0)
    (m : Convert A) (f : A → Convert B)
    → Ends s P (m s)
    → ((a : A) (t : Converter) → Grows s t → Closed t → P t a → Ends t Q (f a t))
    → Ends s Q ((m >>= f) s)
Ends-bind {A = A} {B = B} s P Q m f h g = on_outcome (m s) h
  where
    on_outcome : (o : Outcome StructureError (A × Converter)) → Ends s P o → Ends s Q (pass o f)
    on_outcome (ok (a, t)) h = Ends-after s t Q (f a t) h.0 (g a t h.0 h.1 h.2)
    on_outcome (err e) h = tt
    on_outcome panicked h = h
    on_outcome out_of_fuel h = h

pub Ends-option :
    {A B : Type 0} (s : Converter) (P : Converter → B → Type 0) (o : Option A) (m : Convert B)
    (f : A → Convert B)
    → ((o ≡ none) → Ends s P (m s))
    → ((a : A) → o ≡ some a → Ends s P (f a s))
    → Ends s P (elim o as (λ x. Convert B) [ none ↦ m | some a ↦ f a ] s)
Ends-option s P none m f h g = h refl
Ends-option s P (some a) m f h g = g a refl

pub Ends-if :
    {A : Type 0} (s : Converter) (P : Converter → A → Type 0) (b : Bool) (m n : Convert A)
    → ((b ≡ true) → Ends s P (m s))
    → ((b ≡ false) → Ends s P (n s))
    → Ends s P ((if b then m else n) s)
Ends-if s P true m n h g = h refl
Ends-if s P false m n h g = g refl
