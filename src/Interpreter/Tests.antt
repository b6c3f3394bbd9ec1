-- ===== src/Interpreter/Tests.antt =====
-- A small register file, and a block that adds with carry.
use icewind.Common.{
  ℕ, ◌+◌, ◌-◌, ◌^◌, ◌<◌, ◌≤◌, ◌≡◌, ◌⊎◌, refl, arith, List, [], ◌∷◌, Option, none, some, Outcome, ok,
  panic, Returns,
}
use icewind.Rudder.Constants
use icewind.Rudder.Statements
use icewind.Rudder.Statements.{Statement, Block, Function}
use icewind.Rudder.Types
use icewind.Interpreter.Values.{Value, unsigned_integer, from_constant}
use icewind.Interpreter.RegisterFile.{RegisterFile, validate_range, search_place}
use icewind.Interpreter.Registers.{write_register, read_register, bytes_of}
use icewind.Interpreter.Stored.{read_register-write_register}
use icewind.Interpreter.Casts.{add_carry, nzcv, to_i128}
use icewind.Interpreter.Blocks.{Model, Interpreter, resolve, insert}
use icewind.Interpreter.Carry.{IsSum, step-IsSum}
use icewind.Interpreter.Run.{
  step, interpret, blocks_from, interpret_block, statements_from, keep, with_arguments,
}

-- three registers, of 8, 4 and 4 bytes
abbrev file : RegisterFile
file = record { size = 16; inner = λ i. 0; register_offsets = 0 ∷ 8 ∷ 12 ∷ [] }

read_register-write_register_example :
    Returns (write_register file (unsigned_integer 0xabcd 20) 8) (λ f'.
      (read_register f' (Types.primitive (Types.unsigned_integer 20)) 8
        ≡ ok (unsigned_integer 0xabcd 20))
      × ((i : ℕ) → (i < 8) ⊎ (8 + bytes_of 20 ≤ i) → f'.inner i ≡ file.inner i))
unfolding validate_range search_place bytes_of
read_register-write_register_example =
    read_register-write_register file 0xabcd 20 8 (omega arith) (omega arith) (omega arith) refl
      (omega arith)

-- A write within a register is checked against the start of the register after the next.
overruns : validate_range file 8 4 ≡ ok tt
unfolding validate_range search_place
overruns = refl

-- the constants 2 ^ 64 - 1, 1 and 1, and their sum
abbrev sum_block : Block
sum_block = record {
  statement_arena =
      Statements.constant (Constants.unsigned (2 ^ 64 - 1) 64)
      ∷ Statements.constant (Constants.unsigned 1 64)
      ∷ Statements.constant (Constants.unsigned 1 1)
      ∷ Statements.add_with_carry 0 1 2
      ∷ Statements.return (some 3)
      ∷ [];
  statements = 0 ∷ 1 ∷ 2 ∷ 3 ∷ 4 ∷ [];
}

abbrev model : Model
model = record {
  functions = λ name. some (record { parameters = []; entry_block = 0; arena = sum_block ∷ [] });
  pc_offset = 0;
}

interprets : interpret model 1 1 7 [] file ≡ ok (some (unsigned_integer 1 64), file)
unfolding interpret blocks_from interpret_block statements_from step keep with_arguments insert
    resolve add_carry nzcv to_i128 from_constant
interprets = refl

abbrev no_calls : ℕ → List Value → RegisterFile → Outcome (Option Value × RegisterFile)
no_calls name values f = panic

abbrev loaded : Interpreter
loaded = record {
  locals = λ name. none;
  statement_values =
      insert
        (insert (insert (λ ref. none) 0 (unsigned_integer (2 ^ 64 - 1) 64)) 1
          (unsigned_integer 1 64))
        2 (unsigned_integer 1 1);
  register_file = file;
  flags = 0;
}

step-IsSum_example :
    Returns
      (step model no_calls sum_block.statement_arena loaded (Statements.add_with_carry 0 1 2))
      (IsSum model no_calls loaded (2 ^ 64 - 1) 1 1)
unfolding resolve insert
step-IsSum_example =
    step-IsSum model no_calls sum_block.statement_arena loaded 0 1 2 (2 ^ 64 - 1) 1 1 refl refl refl
      (omega arith) (omega arith) (omega arith)
