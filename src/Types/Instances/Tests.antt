-- ===== src/Types/Instances/Tests.antt =====
-- compiler/src/types/types.rs: a look up of a polymorphic symbol.
use live_programming_prototy.Prelude.{[], ◌∷◌, arith}
use live_programming_prototy.Common.{codes}
use live_programming_prototy.Types.Polytypes.Tests.{
  read_int, read_any, read_int-monomorphic, read_any-concrete, read_int-weight,
}
use live_programming_prototy.Types.Instances.{
  SymbolDefinition, TypeInfo, intrinsic, is_polymorphic, find_symbol,
}
use live_programming_prototy.Types.Instances.Resolved.{
  AllResolved, IsTagged, find_symbol-AllResolved,
}

abbrev read_symbol : SymbolDefinition
read_symbol = record {
  id = record { sid = 7; uid = 1 };
  unit_id = 1;
  name = codes "read";
  type_tag = read_any;
  initialiser = intrinsic;
  type_vars = codes "T" ∷ [];
}

abbrev info : TypeInfo
info = record { type_defs = []; symbols = (read_symbol.id, read_symbol) ∷ []; unit_id = 1 }

read_symbol-IsTagged : IsTagged read_symbol
unfolding is_polymorphic
read_symbol-IsTagged = (read_any-concrete, λ h. cc)

find_symbol-AllResolved_example :
    AllResolved read_int (find_symbol 4 info (codes "read") read_int [])
find_symbol-AllResolved_example =
    find_symbol-AllResolved 4 info (codes "read") read_int read_int-monomorphic
      (omega (arith, read_int-weight)) (read_symbol-IsTagged, tt)
