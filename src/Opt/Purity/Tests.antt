-- ===== src/Opt/Purity/Tests.antt =====
-- A function that calls a pure one.
use icewind.Common.{
  ℕ, zero, suc, [], ◌∷◌, ◌==◌, if◌then◌else◌, ◌≡◌, refl, sym, inl, subst, arith, none, some, true,
  false, ok, index, Returns,
}
use icewind.Rudder.Statements
use icewind.Rudder.Statements.{Statement, Block, Function}
use icewind.Opt.Blocks.{
  targets_of, targets_from, block_targets, terminator_statement, last_of, contains, push_all,
  iterate, most_targets, block_iter,
}
use icewind.Rudder.Statements.{typ_of}
use icewind.Interpreter.RegisterFile.{RegisterFile}
use icewind.Interpreter.Blocks.{Model, resolve_all}
use icewind.Interpreter.Run.{
  step, keep, statements_from, interpret_block, blocks_from, interpret, with_arguments,
}
use icewind.Opt.Uses.{used_by, analyse, has_uses, has_side_effects, is_dead}
use icewind.Opt.Dead
use icewind.Opt.Dead.{remove, kill_statement, first_dead, kill_dead, dead_stmt_elimination}
use icewind.Opt.Effects.{is_carry}
use icewind.Opt.Eliminated.{HasNoCarry, Keeps}
use icewind.Opt.Purity.Defs.{
  Results, record_result, is_pure_statement, all_statements, all_blocks, determine_purity_recursive,
  determine_all, assume_impure, analyse_purity, is_pure,
}
use icewind.Opt.Purity.Known.{CallsKnown, AllCallKnown, IsComplete}
use icewind.Opt.Purity.Honest.{interpret-is_pure}
use icewind.Opt.Purity.Total.{analyse_purity-Keeps}
use icewind.Opt.Formed.{Within, IsFormedBlock, IsFormed}
use icewind.Opt.Tests.{single, single-IsFormedBlock}

abbrev one_block : Block → Function
one_block b = record { parameters = []; entry_block = 0; arena = b ∷ [] }

-- calls function 1 and returns
abbrev caller_block : Block
caller_block = record {
  statement_arena = Statements.call 1 [] none ∷ Statements.return none ∷ [];
  statements = 0 ∷ 1 ∷ [];
}

caller_targets :
    (j : ℕ) (s : Statement) → index caller_block.statement_arena j ≡ ok s → Within 1 (targets_of s)
unfolding Within targets_of
caller_targets zero s h =
    let same : Statements.call 1 [] none ≡ s = cc in subst (λ z. Within 1 (targets_of z)) same tt
caller_targets (suc zero) s h =
    let same : Statements.return none ≡ s = cc in subst (λ z. Within 1 (targets_of z)) same tt
caller_targets (suc (suc j)) s h = absurd cc

caller_blocks :
    (k : ℕ) (b : Block) → index (one_block caller_block).arena k ≡ ok b → IsFormedBlock 1 b
unfolding Within terminator_statement last_of
caller_blocks zero b h =
    let same : caller_block ≡ b = cc in
    subst (IsFormedBlock 1) same (record {
      statements_in = (omega arith, (omega arith, tt));
      terminator = 1;
      terminated = refl;
      targets_in = caller_targets;
    })
caller_blocks (suc k) b h = absurd cc

caller-IsFormed : IsFormed (one_block caller_block)
caller-IsFormed = record { entry_in = omega arith; blocks_formed = caller_blocks }

caller_no_carry :
    (j : ℕ) (s : Statement) → index caller_block.statement_arena j ≡ ok s → is_carry s ≡ false
caller_no_carry zero s h =
    let same : Statements.call 1 [] none ≡ s = cc in subst (λ z. is_carry z ≡ false) same refl
caller_no_carry (suc zero) s h =
    let same : Statements.return none ≡ s = cc in subst (λ z. is_carry z ≡ false) same refl
caller_no_carry (suc (suc j)) s h = absurd cc

caller-HasNoCarry : HasNoCarry (one_block caller_block)
caller-HasNoCarry zero b j s h at =
    let same : caller_block ≡ b = cc in
    caller_no_carry j s (subst (λ z. index z.statement_arena j ≡ ok s) (sym same) at)
caller-HasNoCarry (suc k) b j s h at = absurd cc

-- function 0 calls function 1, which only returns
abbrev calls : Model
calls = record {
  functions = λ name.
      if name == 0
      then some (one_block caller_block)
      else if name == 1
      then some (one_block (single (Statements.return none)))
      else none;
  pc_offset = 0;
}

-- both are pure, and the intrinsic 2 is not
abbrev purities : Results
purities = record_result (record_result (assume_impure (2 ∷ [])) 1 true) 0 true

calls_pure : analyse_purity 2 calls (2 ∷ []) (0 ∷ 1 ∷ []) ≡ ok purities
unfolding analyse_purity determine_all determine_purity_recursive assume_impure record_result
    all_blocks all_statements is_pure_statement block_iter iterate most_targets contains push_all
    block_targets targets_from targets_of
calls_pure = refl

abbrev no_registers : RegisterFile
no_registers = record { size = 0; inner = λ k. 0; register_offsets = [] }

zero_is_pure : is_pure purities 0 ≡ ok true
unfolding is_pure record_result
zero_is_pure = refl

calls_return : interpret calls 2 1 0 [] no_registers ≡ ok (none, no_registers)
unfolding interpret blocks_from interpret_block statements_from step keep with_arguments resolve_all
calls_return = refl

interpret-is_pure_example : no_registers ≡ no_registers
interpret-is_pure_example =
    interpret-is_pure 2 calls (2 ∷ []) (0 ∷ 1 ∷ []) purities calls_pure 2 1 0 [] no_registers
      (none, no_registers) zero_is_pure calls_return

-- the call is dead, since function 1 is pure
kills_call :
    dead_stmt_elimination (is_pure purities) (one_block caller_block)
    ≡ ok (one_block (record caller_block { statements = 1 ∷ [] }), true)
unfolding dead_stmt_elimination Dead.run_on_blocks Dead.run_on_block first_dead kill_dead
    kill_statement remove analyse used_by has_uses is_dead has_side_effects is_pure record_result
    block_iter iterate most_targets contains push_all block_targets targets_from targets_of
kills_call = refl

caller_calls :
    (j : ℕ) (s : Statement)
    → index caller_block.statement_arena j ≡ ok s
    → CallsKnown (2 ∷ []) (0 ∷ 1 ∷ []) s
unfolding contains
caller_calls zero s h =
    let same : Statements.call 1 [] none ≡ s = cc in
    subst (CallsKnown (2 ∷ []) (0 ∷ 1 ∷ [])) same (inl refl)
caller_calls (suc zero) s h =
    let same : Statements.return none ≡ s = cc in subst (CallsKnown (2 ∷ []) (0 ∷ 1 ∷ [])) same tt
caller_calls (suc (suc j)) s h = absurd cc

abbrev callee : Function
callee = one_block (single (Statements.return none))

callee_calls :
    (j : ℕ) (s : Statement)
    → index (single (Statements.return none)).statement_arena j ≡ ok s
    → CallsKnown (2 ∷ []) (0 ∷ 1 ∷ []) s
callee_calls zero s h =
    let same : Statements.return none ≡ s = cc in subst (CallsKnown (2 ∷ []) (0 ∷ 1 ∷ [])) same tt
callee_calls (suc j) s h = absurd cc

one_block_calls :
    (b : Block)
    → ((j : ℕ) (s : Statement)
        → index b.statement_arena j ≡ ok s
        → CallsKnown (2 ∷ []) (0 ∷ 1 ∷ []) s)
    → AllCallKnown (2 ∷ []) (0 ∷ 1 ∷ []) (one_block b)
one_block_calls b known zero c j s h at =
    let same : b ≡ c = cc in known j s (subst (λ z. index z.statement_arena j ≡ ok s) (sym same) at)
one_block_calls b known (suc k) c j s h at = absurd cc

callee_blocks : (k : ℕ) (b : Block) → index callee.arena k ≡ ok b → IsFormedBlock 1 b
unfolding Within targets_of
callee_blocks zero b h =
    let same : single (Statements.return none) ≡ b = cc in
    subst (IsFormedBlock 1) same (single-IsFormedBlock 1 (Statements.return none) tt)
callee_blocks (suc k) b h = absurd cc

callee-IsFormed : IsFormed callee
callee-IsFormed = record { entry_in = omega arith; blocks_formed = callee_blocks }

calls-IsComplete : IsComplete calls (2 ∷ []) (0 ∷ 1 ∷ [])
unfolding contains
calls-IsComplete zero h =
    (one_block caller_block, refl, caller-IsFormed, one_block_calls caller_block caller_calls)
calls-IsComplete (suc zero) h =
    (callee, refl, callee-IsFormed, one_block_calls (single (Statements.return none)) callee_calls)
calls-IsComplete (suc (suc k)) h = absurd (ground (arith, h))

analyse_purity-Keeps_example : Returns (analyse_purity 3 calls (2 ∷ []) (0 ∷ 1 ∷ [])) (λ m.
    Returns
      (dead_stmt_elimination (is_pure m) (one_block caller_block))
      (λ out. Keeps calls (interpret calls 2 1) (one_block caller_block) (out.0)))
analyse_purity-Keeps_example =
    analyse_purity-Keeps calls (2 ∷ []) (0 ∷ 1 ∷ []) calls-IsComplete 3 (omega arith) 2 1
      (one_block caller_block) caller-IsFormed caller-HasNoCarry
      (one_block_calls caller_block caller_calls)
