-- ===== src/Interpreter/Run.antt =====
-- `interpret` and `interpret_block`.
use icewind.Common.{
  ℕ, zero, suc, List, [], ◌∷◌, ◌==◌, if◌then◌else◌, Outcome, ok, panic, hang, ◌>>=◌, unwrap, index,
  length, Option, none, some, not,
}
use icewind.BitFields.Defs.{to_u32}
use icewind.Rudder.Types.{Typ}
use icewind.Rudder.Statements
use icewind.Rudder.Statements.{Statement, Symbol, Block, Function, typ_of}
use icewind.Interpreter.Values.{Value, unsigned_integer, tuple, from_constant}
use icewind.Interpreter.RegisterFile.{RegisterFile, write_raw}
use icewind.Interpreter.Registers.{read_register, write_register}
use icewind.Interpreter.Casts.{cast_value, cast_bits, shift_value, add_carry}
use icewind.Interpreter.Blocks.{
  Model, Interpreter, BlockResult, next_block, return_value, Done, value_of, ended, insert, resolve,
  resolve_u64, resolve_all, unary, binary, extract, insert_field, assign_in, access, size_of,
  from_list,
}

abbrev valued : Interpreter → Value → Outcome Done
valued i v = ok (value_of (some v) i)

-- the type of the operand of a cast
unfoldable pub operand_type : List Statement → ℕ → Outcome Typ
operand_type arena v = do
  s ← index arena v
  found ← typ_of (suc (length arena)) arena s
  unwrap found

-- the value of a statement that has one is kept
unfoldable pub keep : ℕ → Option Value → Interpreter → Interpreter
keep ref none i = i
keep ref (some v) i = record i { statement_values = insert i.statement_values ref v }

module _ (M : Model)
    (call_function : ℕ → List Value → RegisterFile → Outcome (Option Value × RegisterFile)) where
  unfoldable pub step : List Statement → Interpreter → Statement → Outcome Done
  step arena i (Statements.constant c) = valued i (from_constant c)
  step arena i (Statements.read_variable symbol) = unwrap (i.locals symbol.name) >>= valued i
  step arena i (Statements.read_register t offset) = do
    at ← resolve_u64 i offset
    v ← read_register i.register_file t at
    valued i v
  step arena i (Statements.get_flags operation) = valued i (unsigned_integer i.flags 4)
  step arena i (Statements.unary_operation kind v) = do
    value ← resolve i v
    result ← unary kind value
    valued i result
  step arena i (Statements.binary_operation kind lhs rhs) = do
    left ← resolve i lhs
    right ← resolve i rhs
    result ← binary kind left right
    valued i result
  step arena i (Statements.add_with_carry a b c) = do
    a' ← resolve i a
    b' ← resolve i b
    c' ← resolve i c
    sum ← add_carry a' b' c'
    valued (record i { flags = sum.1 }) (sum.0)
  step arena i (Statements.shift_operation kind v amount) = do
    amount' ← resolve_u64 i amount
    value ← resolve i v
    result ← shift_value kind amount' value
    valued i result
  step arena i (Statements.call target args return_type) = do
    vs ← resolve_all i args
    result ← call_function target vs i.register_file
    ok (value_of (result.0) (record i { register_file = result.1 }))
  step arena i (Statements.cast kind t v) = do
    source ← operand_type arena v
    value ← resolve i v
    result ← cast_value kind t source value
    valued i result
  step arena i (Statements.bits_cast kind t v width) = do
    value ← resolve i v
    width' ← resolve_u64 i width
    target ← to_u32 width'
    result ← cast_bits kind t target value
    valued i result
  step arena i (Statements.select c t f) = do
    condition ← resolve_u64 i c
    result ← resolve i (if not (condition == 0) then t else f)
    valued i result
  step arena i (Statements.bit_extract v start width) = do
    value ← resolve i v
    start' ← resolve_u64 i start
    width' ← resolve_u64 i width
    result ← extract value start' width'
    valued i result
  step arena i (Statements.bit_insert target source start width) = do
    target' ← resolve i target
    source' ← resolve_u64 i source
    start' ← resolve_u64 i start
    width' ← resolve_u64 i width
    result ← insert_field target' source' start' width'
    valued i result
  step arena i (Statements.assign_element v value place) = do
    vector' ← resolve i v
    value' ← resolve i value
    place' ← resolve_u64 i place
    result ← assign_in vector' place' value'
    valued i result
  step arena i (Statements.create_bits v width) = do
    value ← resolve_u64 i v
    width' ← resolve_u64 i width
    width'' ← to_u32 width'
    valued i (unsigned_integer value width'')
  step arena i (Statements.size_of v) = do
    value ← resolve i v
    result ← size_of value
    valued i result
  step arena i (Statements.create_tuple vs) = do
    values ← resolve_all i vs
    valued i (tuple (from_list values))
  step arena i (Statements.tuple_access n source) = do
    value ← resolve i source
    result ← access value n
    valued i result
  step arena i (Statements.write_variable symbol v) = do
    value ← resolve i v
    ok (value_of none (record i { locals = insert i.locals symbol.name value }))
  step arena i (Statements.write_register offset v) = do
    at ← resolve_u64 i offset
    value ← resolve i v
    file ← write_register i.register_file value at
    ok (value_of none (record i { register_file = file }))
  step arena i (Statements.write_pc v) = do
    value ← resolve_u64 i v
    file ← write_raw i.register_file 8 M.pc_offset value
    ok (value_of none (record i { register_file = file }))
  step arena i (Statements.jump target) = ok (ended (next_block target) i)
  step arena i (Statements.branch c t f) = do
    condition ← resolve_u64 i c
    ok (ended (next_block (if not (condition == 0) then t else f)) i)
  step arena i (Statements.return none) = ok (ended (return_value none) i)
  step arena i (Statements.return (some v)) = do
    value ← resolve i v
    ok (ended (return_value (some value)) i)
  step arena i (Statements.check c) = do
    condition ← resolve_u64 i c
    if condition == 0 then panic else ok (value_of none i)
  step arena i (Statements.read_memory a s) = panic
  step arena i (Statements.write_memory a v) = panic
  step arena i (Statements.atomic_operation a b c d) = panic
  step arena i Statements.read_pc = panic
  step arena i (Statements.phi_node ms) = panic
  step arena i (Statements.bit_replicate p n) = panic
  step arena i (Statements.read_element v n) = panic
  step arena i (Statements.abort v) = panic
  step arena i (Statements.matches_union v n) = panic
  step arena i (Statements.unwrap_union v n) = panic
  step arena i (Statements.create_real n d) = panic

  unfoldable pub statements_from :
      List Statement → List ℕ → Interpreter → Outcome (BlockResult × Interpreter)
  statements_from arena [] i = panic
  statements_from arena (ref ∷ refs) i = do
    s ← index arena ref
    done ← step arena i s
    elim done [
      | value_of v i' ↦ statements_from arena refs (keep ref v i')
      | ended result i' ↦ ok (result, i')
    ]

  unfoldable pub interpret_block : Interpreter → Block → Outcome (BlockResult × Interpreter)
  interpret_block i b =
      statements_from b.statement_arena b.statements (record i { statement_values = λ ref. none })

  -- the loop over blocks, with fuel for their number
  unfoldable pub blocks_from :
      ℕ → Function → ℕ → Interpreter → Outcome (Option Value × RegisterFile)
  blocks_from zero function block i = hang
  blocks_from (suc fuel) function block i = do
    b ← index function.arena block
    result ← interpret_block i b
    elim (result.0) [
      | next_block next ↦ blocks_from fuel function next (result.1)
      | return_value v ↦ ok (v, (result.1).register_file)
    ]

-- the arguments as locals
unfoldable pub with_arguments : List Symbol → List Value → (ℕ → Option Value) → ℕ → Option Value
with_arguments [] vs locals = locals
with_arguments (p ∷ ps) [] locals = locals
with_arguments (p ∷ ps) (v ∷ vs) locals = with_arguments ps vs (insert locals p.name v)

-- `interpret`, with fuel for the depth of calls and `blocks` for the blocks of each
unfoldable pub interpret :
    Model → ℕ → ℕ → ℕ → List Value → RegisterFile → Outcome (Option Value × RegisterFile)
interpret M zero blocks function_name arguments file = hang
interpret M (suc fuel) blocks function_name arguments file = do
  function ← unwrap (M.functions function_name)
  blocks_from M (interpret M fuel blocks) blocks function function.entry_block (record {
    locals = with_arguments function.parameters arguments (λ name. none);
    statement_values = λ ref. none;
    register_file = file;
    flags = 0;
  })
