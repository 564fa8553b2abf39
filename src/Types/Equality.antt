-- ===== src/Types/Equality.antt =====
-- compiler/src/types/types.rs: the derived `==` of types.
use live_programming_prototy.Prelude.{◌≡◌, ◌↔◌, Bool, true, false, ◌&&◌, Eq, arith}
use live_programming_prototy.Types.{
  TypeContent, Ty, Tys, node, nil, cons, content_eq, content_eq_iff,
}

unfoldable mutual
  pub type_eq : Ty → Ty → Bool
  type_eq (node c ts) (node d us) = content_eq c d && types_eq ts us

  pub types_eq : Tys → Tys → Bool
  types_eq nil nil = true
  types_eq (cons t ts) (cons u us) = type_eq t u && types_eq ts us
  types_eq _ _ = false

node_iff :
    (a b : Bool) (c d : TypeContent) (ts us : Tys)
    → (a ≡ true) ↔ (c ≡ d)
    → (b ≡ true) ↔ (ts ≡ us)
    → ((a && b) ≡ true) ↔ (node c ts ≡ node d us)
node_iff a b c d ts us h k = ground arith

cons_iff :
    (a b : Bool) (t u : Ty) (ts us : Tys)
    → (a ≡ true) ↔ (t ≡ u)
    → (b ≡ true) ↔ (ts ≡ us)
    → ((a && b) ≡ true) ↔ (cons t ts ≡ cons u us)
cons_iff a b t u ts us h k = ground arith

mutual
  unfolding type_eq

  pub type_eq_iff : (t u : Ty) → (type_eq t u ≡ true) ↔ (t ≡ u)
  type_eq_iff (node c ts) (node d us) =
      node_iff (content_eq c d) (types_eq ts us) c d ts us (content_eq_iff c d) (types_eq_iff ts us)

  types_eq_iff : (ts us : Tys) → (types_eq ts us ≡ true) ↔ (ts ≡ us)
  types_eq_iff nil nil = ground arith
  types_eq_iff (cons t ts) (cons u us) =
      cons_iff (type_eq t u) (types_eq ts us) t u ts us (type_eq_iff t u) (types_eq_iff ts us)
  types_eq_iff nil (cons u us) = ground arith
  types_eq_iff (cons t ts) nil = ground arith

instance abbrev pub type_instance : Eq Ty
type_instance = record { same = type_eq; same_iff = type_eq_iff }
