-- ===== src/Opt/Tests.antt =====
-- A jump to a block that jumps on, and an operand that is replaced.
use icewind.Common.{
  ℕ, zero, suc, List, [], ◌∷◌, ◌≡◌, refl, subst, arith, none, some, true, ok, index, Returns,
}
use icewind.Rudder.Statements
use icewind.Rudder.Statements.{Statement, Block, Function}
use icewind.Opt.Blocks.{
  targets_of, targets_from, block_targets, terminator_statement, last_of, contains, push_all,
  iterate, most_targets, block_iter,
}
use icewind.Rudder.Statements.{typ_of}
use icewind.Rudder.Constants.{unsigned}
use icewind.Rudder.Replaced.{replace_use}
use icewind.Interpreter.Values.{unsigned_integer}
use icewind.Interpreter.RegisterFile.{RegisterFile}
use icewind.Interpreter.Blocks.{Model, Interpreter, resolve}
use icewind.Interpreter.Run.{step, operand_type, interpret}
use icewind.Opt.Uses.{used_by, has_uses}
use icewind.Opt.Substituted.{replace_use_lem}
use icewind.Opt.Threading.{
  jump_target, target_for_threadable, threaded_jump, thread, replace, replaced, run_on_block,
  run_on_blocks, jump_threading,
}
use icewind.Opt.Formed.{Within, IsFormedBlock, IsFormed}
use icewind.Opt.Passed.{Refines}
use icewind.Opt.Iterated.{jump_threading-Refines}

abbrev pub single : Statement → Block
single s = record { statement_arena = s ∷ []; statements = 0 ∷ [] }

-- blocks 0 and 1 jump on, block 2 returns
abbrev chain : Function
chain = record {
  parameters = [];
  entry_block = 0;
  arena =
      single (Statements.jump 1)
      ∷ single (Statements.jump 2)
      ∷ single (Statements.return none)
      ∷ [];
}

pub single-IsFormedBlock :
    (n : ℕ) (s : Statement) → Within n (targets_of s) → IsFormedBlock n (single s)
unfolding Within terminator_statement last_of
single-IsFormedBlock n s w = record {
  statements_in = (omega arith, tt);
  terminator = 0;
  terminated = refl;
  targets_in = single_targets;
}
  where
    single_targets : (j : ℕ) (t : Statement) → index (s ∷ []) j ≡ ok t → Within n (targets_of t)
    single_targets zero t h = let same : s ≡ t = cc in subst (λ z. Within n (targets_of z)) same w
    single_targets (suc j) t h = absurd cc

chain_blocks : (k : ℕ) (b : Block) → index chain.arena k ≡ ok b → IsFormedBlock 3 b
unfolding Within targets_of
chain_blocks zero b h =
    let same : single (Statements.jump 1) ≡ b = cc in
    subst (IsFormedBlock 3) same (single-IsFormedBlock 3 (Statements.jump 1) (omega arith, tt))
chain_blocks (suc zero) b h =
    let same : single (Statements.jump 2) ≡ b = cc in
    subst (IsFormedBlock 3) same (single-IsFormedBlock 3 (Statements.jump 2) (omega arith, tt))
chain_blocks (suc (suc zero)) b h =
    let same : single (Statements.return none) ≡ b = cc in
    subst (IsFormedBlock 3) same (single-IsFormedBlock 3 (Statements.return none) tt)
chain_blocks (suc (suc (suc k))) b h = absurd cc

chain-IsFormed : IsFormed chain
chain-IsFormed = record { entry_in = omega arith; blocks_formed = chain_blocks }

-- the first block jumps to the third one now
threads_chain :
    jump_threading chain
    ≡ ok (
      record chain {
        arena =
            single (Statements.jump 2)
            ∷ single (Statements.jump 2)
            ∷ single (Statements.return none)
            ∷ [];
      },
      true,
    )
unfolding jump_threading block_iter iterate most_targets contains push_all block_targets
    targets_from targets_of run_on_blocks run_on_block thread target_for_threadable jump_target
    threaded_jump replace replaced terminator_statement last_of
threads_chain = refl

jump_threading-Refines_example :
    Returns (jump_threading chain) (λ out. IsFormed (out.0) × Refines chain (out.0))
jump_threading-Refines_example = jump_threading-Refines chain chain-IsFormed

-- statements 0 and 1 are the same constant
abbrev words : List Statement
words = Statements.constant (unsigned 7 8) ∷ Statements.constant (unsigned 7 8) ∷ []

abbrev no_registers : RegisterFile
no_registers = record { size = 0; inner = λ k. 0; register_offsets = [] }

abbrev no_functions : Model
no_functions = record { functions = λ name. none; pc_offset = 0 }

abbrev valued_words : Interpreter
valued_words = record {
  locals = λ name. none;
  statement_values = λ ref. some (unsigned_integer 7 8);
  register_file = no_registers;
  flags = 0;
}

same_value : resolve valued_words 1 ≡ resolve valued_words 0
unfolding resolve
same_value = refl

same_type : operand_type words 1 ≡ operand_type words 0
unfolding operand_type typ_of
same_type = refl

adds_use : has_uses (used_by (Statements.binary_operation Statements.add 0 1)) 0 ≡ true
unfolding has_uses used_by
adds_use = refl

replace_use_lem_example :
    Returns (replace_use 0 1 (Statements.binary_operation Statements.add 0 1)) (λ s'.
      step no_functions (interpret no_functions 1 1) words valued_words s'
      ≡ step no_functions
          (interpret no_functions 1 1)
          words
          valued_words
          (Statements.binary_operation Statements.add 0 1))
replace_use_lem_example =
    replace_use_lem no_functions (interpret no_functions 1 1) words valued_words 0 1 same_value
      same_type (Statements.binary_operation Statements.add 0 1) adds_use refl
