-- ===== src/Macro/Parse/Items.antt =====
-- The items of the specification: `Idle::check`, `Init::check`, `Exception::check`,
-- `Interrupt::check`, `Resource::check`, `Static::parse`, `Task::check` and
-- `FreeInterrupt::parse` of macros/src/syntax.rs.
use rtfm.Common.{
  Bool, true, false, not, ◌&&◌, List, [], ◌∷◌, none, some, string_eq, HashMap, contains_key, insert,
  if◌then◌else◌,
}
use rtfm.Macro.Result.{
  Result, ok, err, ◌>>=◌, ◌>>◌, ensure, wrong_signature, inputs_must_be_named,
  resource_must_be_private, extern_only_functions, listed_twice,
}
use rtfm.Macro.Syn.{
  Attribute, outer, SynType, Expr, tuple, ItemStatic, FnArg, captured, other_arg, ItemFn,
  ForeignItem, foreign_fn, other_foreign,
}
use rtfm.Macro.Syntax.{
  Static, Init, InitArgs, Idle, IdleArgs, Exception, ExceptionArgs, Interrupt, InterruptArgs,
  Resource, Task, TaskArgs, FreeInterrupts, Ident,
}
use rtfm.Macro.Parse.Body.{is_nil, eq, is_bottom, is_unit, extract_statics, extract_assignments}

-- The conditions on a signature that all handlers share, but for the inputs and the output.
abbrev pub is_plain : ItemFn → Bool
is_plain item =
    item.is_inherited
    && not item.constness
    && not item.asyncness
    && not item.abi
    && not item.generic_params
    && not item.where_clause
    && not item.variadic

-- `Static::parse`, from the statics that are there already.
unfoldable pub parse_statics :
    List ItemStatic → HashMap Ident Static → Result (HashMap Ident Static)
parse_statics [] statics = ok statics
parse_statics (item ∷ items) statics = do
  ensure (not (contains_key item.ident statics)) (listed_twice item.ident)
  parse_statics items
      (insert item.ident (record { attrs = item.attrs; ty = item.ty; expr = item.expr }) statics)

unfoldable pub check_idle : IdleArgs → ItemFn → Result Idle
unfolding is_bottom extract_statics parse_statics
check_idle args item = do
  ensure (is_plain item && is_nil item.inputs && is_bottom item.output) (wrong_signature "idle")
  let (statics, stmts) = extract_statics item.block in
      (do
        parsed ← parse_statics statics []
        ok (record { args = args; attrs = item.attrs; statics = parsed; stmts = stmts }))

unfoldable pub check_init : InitArgs → ItemFn → Result Init
unfolding is_unit extract_statics extract_assignments parse_statics
check_init args item = do
  ensure (is_plain item && is_nil item.inputs && is_unit item.output) (wrong_signature "init")
  let (statics, stmts) = extract_statics item.block in
      let (stmts', assigns) = extract_assignments stmts in
      (do
        parsed ← parse_statics statics []
        ok (record {
          args = args;
          attrs = item.attrs;
          statics = parsed;
          stmts = stmts';
          assigns = assigns;
        }))

unfoldable pub check_exception : ExceptionArgs → ItemFn → Result Exception
unfolding is_unit extract_statics
check_exception args item = do
  ensure (is_plain item && is_nil item.inputs && is_unit item.output) (wrong_signature "exception")
  let (statics, stmts) = extract_statics item.block in
      ok (record { args = args; attrs = item.attrs; statics = statics; stmts = stmts })

unfoldable pub check_interrupt : InterruptArgs → ItemFn → Result Interrupt
unfolding is_unit extract_statics
check_interrupt args item = do
  ensure (is_plain item && is_nil item.inputs && is_unit item.output) (wrong_signature "interrupt")
  let (statics, stmts) = extract_statics item.block in
      ok (record { args = args; attrs = item.attrs; statics = statics; stmts = stmts })

abbrev pub is_unit_value : Expr → Bool
is_unit_value (tuple elems) = is_nil elems
is_unit_value expr = false

-- The attributes, with `owned_singleton` put before the first `Singleton`, and whether there is one.
unfoldable pub mark_singleton : List Attribute → List Attribute × Bool
unfolding eq
mark_singleton [] = ([], false)
mark_singleton (outer segments tts ∷ attrs) =
    let rest = mark_singleton attrs in
    if eq (outer segments tts) "Singleton"
    then (outer ("owned_singleton" ∷ segments) tts ∷ attrs, true)
    else (outer segments tts ∷ rest.0, rest.1)
mark_singleton (attr ∷ attrs) = let rest = mark_singleton attrs in (attr ∷ rest.0, rest.1)

unfoldable pub check_resource : ItemStatic → Result Resource
unfolding mark_singleton
check_resource item = do
  ensure item.is_inherited (resource_must_be_private item.ident)
  let (attrs, singleton) = mark_singleton item.attrs in
      ok (record {
        singleton = singleton;
        attrs = attrs;
        mutability = item.mutability;
        ty = item.ty;
        expr = if is_unit_value item.expr then none else some item.expr;
      })

unfoldable pub captured_inputs : Ident → List FnArg → Result (List (Ident × SynType))
captured_inputs item [] = ok []
captured_inputs item (captured name ty ∷ args) =
    captured_inputs item args >>= λ rest. ok ((name, ty) ∷ rest)
captured_inputs item (other_arg text ∷ args) = err (inputs_must_be_named item)

unfoldable pub check_task : TaskArgs → ItemFn → Result Task
unfolding is_unit extract_statics captured_inputs parse_statics
check_task args item = do
  ensure (is_plain item && is_unit item.output) (wrong_signature "task")
  let (statics, stmts) = extract_statics item.block in
      (do
        inputs ← captured_inputs item.ident item.inputs
        parsed ← parse_statics statics []
        ok (record {
          args = args;
          attrs = item.attrs;
          inputs = inputs;
          statics = parsed;
          stmts = stmts;
        }))

-- `FreeInterrupt::parse`, from the interrupts that are there already.
unfoldable pub parse_free_interrupts : List ForeignItem → FreeInterrupts → Result FreeInterrupts
unfolding is_unit
parse_free_interrupts [] free = ok free
parse_free_interrupts (foreign_fn f ∷ items) free = do
  ensure
      (f.is_inherited
        && not f.generic_params
        && not f.where_clause
        && is_nil f.inputs
        && not f.variadic
        && is_unit f.output)
      (wrong_signature f.ident)
  ensure (not (contains_key f.ident free)) (listed_twice f.ident)
  parse_free_interrupts items (insert f.ident (record { attrs = f.attrs }) free)
parse_free_interrupts (other_foreign text ∷ items) free = err extern_only_functions
