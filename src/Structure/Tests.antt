-- ===== src/Structure/Tests.antt =====
-- compiler/src/structure.rs on small expressions.
use live_programming_prototy.Prelude.{
  ℕ, ◌≡◌, refl, true, [], Outcome, ok, err, panicked, out_of_fuel, length,
}
use live_programming_prototy.Common.{codes, text_eq, new_generator, next, StringCache, cache_get}
use live_programming_prototy.Location.{zero_location}
use live_programming_prototy.Expr.{
  Expr, expr, list, symbol, literal_int, pos, nil, cons, try_symbol, try_construct, children,
}
use live_programming_prototy.Nodes.{Nodes}
use live_programming_prototy.Structure.{
  Converter, StructureError, new_uid, cached, add_node, new_symbol, add_var_to_scope, find_in,
  find_var, unwrap_symbol, unwrap_construct, expr_to_symbol, pair_of, each, as_i64,
}
use live_programming_prototy.Structure.Builders.{
  add_int, let_var, add_array, add_call, add_constructor, marker_struct, loc_struct, labelled_node,
  new_block_scope, add_argument, coerce_arguments, template_quote, quote_to_node,
  template_arguments, all_template_arguments,
}
use live_programming_prototy.Structure.Definitions.{
  typed_symbol, cached_symbol, field_value, to_type_constructor, to_function_body, function_body,
  function_def_to_node, is_polytypes, fun_to_node, union_to_node, struct_head, struct_to_node,
}
use live_programming_prototy.Structure.Constructs.{
  function_call_to_node, size_of_to_node, call_to_node, as_to_node, malformed_let, static_to_node,
  let_to_node, type_to_node, assignment_to_node, last_label, break_to, return_value, break_out,
  return_to_node, while_to_node, next_call, range_iterator, loop_block, for_loop, if_to_node,
  block_to_node, cbind_to_node, field_to_node, array_to_node, index_to_node,
}
use live_programming_prototy.Structure.Convert.{
  invalid, unary_to_node, binary_to_node, fixed_to_node, construct_to_node, break_to_node,
  reference_to_node, symbol_to_node, literal_to_node, to_node_with, to_node, top_level_expression,
  to_nodes, size, sizes,
}
use live_programming_prototy.Structure.Closed.Fit.{shaped}
use live_programming_prototy.Structure.Closed.Total.{Converts, to_nodes-Converts}

abbrev name_expr : Expr
name_expr = expr zero_location (symbol (codes "x"))

-- A block of a `let`, a `while` left by a `break`, and a quote with an argument
abbrev sample : Expr
sample = expr zero_location (
    list (codes "block") (
      cons
        (expr zero_location (
          list (codes "let") (
            cons
              (expr zero_location (
                list (codes "=")
                  (cons name_expr (cons (expr zero_location (literal_int (pos 5))) nil))))
              nil)))
        (cons
          (expr zero_location (
            list (codes "while")
              (cons name_expr (cons (expr zero_location (symbol (codes "break"))) nil))))
          (cons
            (expr zero_location (
              list (codes "#")
                (cons (expr zero_location (list (codes "$") (cons name_expr nil))) nil)))
            nil))))

-- A call of nothing
abbrev empty_call : Expr
empty_call = expr zero_location (list (codes "call") nil)

abbrev cache : StringCache
cache = record { symbols = [] }

abbrev node_count : Outcome StructureError (Nodes × Converter) → Outcome StructureError ℕ
node_count (ok (ns, s)) = ok (length ns.nodes)
node_count (err e) = err e
node_count panicked = panicked
node_count out_of_fuel = out_of_fuel

sample_is_converted : node_count (to_nodes new_generator cache sample) ≡ ok 26
unfolding new_uid cached add_node new_symbol add_var_to_scope find_in find_var unwrap_symbol
    unwrap_construct expr_to_symbol pair_of each as_i64 add_int let_var add_array add_call
    add_constructor marker_struct loc_struct labelled_node new_block_scope add_argument
    coerce_arguments template_quote quote_to_node template_arguments all_template_arguments
    typed_symbol cached_symbol field_value to_type_constructor to_function_body function_body
    function_def_to_node is_polytypes fun_to_node union_to_node struct_head struct_to_node
    function_call_to_node size_of_to_node call_to_node as_to_node malformed_let static_to_node
    let_to_node type_to_node assignment_to_node last_label break_to return_value break_out
    return_to_node while_to_node next_call range_iterator loop_block for_loop if_to_node
    block_to_node cbind_to_node field_to_node array_to_node index_to_node invalid unary_to_node
    binary_to_node fixed_to_node construct_to_node break_to_node reference_to_node symbol_to_node
    literal_to_node to_node_with to_node top_level_expression to_nodes size sizes next cache_get
    try_symbol try_construct children text_eq
sample_is_converted = refl

empty_call_panics : to_nodes new_generator cache empty_call ≡ panicked
unfolding new_uid cached add_node new_symbol add_var_to_scope find_in find_var unwrap_symbol
    unwrap_construct expr_to_symbol pair_of each as_i64 add_int let_var add_array add_call
    add_constructor marker_struct loc_struct labelled_node new_block_scope add_argument
    coerce_arguments template_quote quote_to_node template_arguments all_template_arguments
    typed_symbol cached_symbol field_value to_type_constructor to_function_body function_body
    function_def_to_node is_polytypes fun_to_node union_to_node struct_head struct_to_node
    function_call_to_node size_of_to_node call_to_node as_to_node malformed_let static_to_node
    let_to_node type_to_node assignment_to_node last_label break_to return_value break_out
    return_to_node while_to_node next_call range_iterator loop_block for_loop if_to_node
    block_to_node cbind_to_node field_to_node array_to_node index_to_node invalid unary_to_node
    binary_to_node fixed_to_node construct_to_node break_to_node reference_to_node symbol_to_node
    literal_to_node to_node_with to_node top_level_expression to_nodes size sizes next cache_get
    try_symbol try_construct children text_eq
empty_call_panics = refl

sample-shaped : shaped sample ≡ true
unfolding shaped text_eq
sample-shaped = refl

to_nodes-Converts_example : Converts (to_nodes new_generator cache sample)
to_nodes-Converts_example = to_nodes-Converts new_generator cache sample sample-shaped
