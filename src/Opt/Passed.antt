-- ===== src/Opt/Passed.antt =====
-- jump_threading.rs on a block and on a list of blocks.
use icewind.Common.{
  ℕ, ◌==◌, ◌<◌, Bool, false, List, [], ◌∷◌, length, set, ◌≡◌, ◌⊎◌, inl, inr, refl, sym, ap, ◌∙◌,
  subst, Option, none, some, Outcome, ok, index, unwrap, Bool-cases, ◌||◌, ==_iff, ==→ne, get_elem?,
  length-set, get_elem?-set_self, get_elem?-set_ne, lt_of_get_elem?,
}
use icewind.Rudder.Statements.{Statement, Block, Function}
use icewind.Interpreter.Values.{Value}
use icewind.Interpreter.RegisterFile.{RegisterFile}
use icewind.Interpreter.Blocks.{Model, Interpreter}
use icewind.Interpreter.Run.{blocks_from}
use icewind.Interpreter.Extends.{Extends, unchanged, trans-Extends}
use icewind.Opt.Blocks.{targets_of, terminator_statement}
use icewind.Opt.Threading.{replace, replaced, run_on_block, run_on_blocks}
use icewind.Opt.Simulated.{Threads, Threaded}
use icewind.Opt.Preserved.{IsThreaded, blocks-IsThreaded}
use icewind.Opt.Formed.{
  Within, IsFormedBlock, IsFormed, index_total, terminator_in, IsReplacement, thread_total,
}

pub unwrap-some {ℓ} : {A : Type ℓ} (o : Option A) {a : A} → unwrap o ≡ ok a → o ≡ some a
unwrap-some none h = absurd cc
unwrap-some (some x) h = cc

pub index_lt {ℓ} : {A : Type ℓ} (xs : List A) (k : ℕ) {x : A} → index xs k ≡ ok x → k < length xs
index_lt xs k h = lt_of_get_elem? xs k (unwrap-some (get_elem? xs k) h)

-- what is found after a write within the list
pub index-set {ℓ} :
    {A : Type ℓ} (xs : List A) (k : ℕ) (v : A)
    → k < length xs
    → (j : ℕ) → (index (set xs k v) j ≡ index xs j) ⊎ ((j ≡ k) × (index (set xs k v) j ≡ ok v))
index-set xs k v h j = elim (Bool-cases (k == j)) [
  | inl e ↦
      let same : j ≡ k = sym ((==_iff k j).0 e) in
      inr (same, ap (index (set xs k v)) same ∙ ap unwrap (get_elem?-set_self xs k v h))
  | inr n ↦ inl (ap unwrap (get_elem?-set_ne xs k j v (==→ne k j n)))
]

-- The second function runs like the first: whatever a run of the first returns, or if it panics,
-- so does a run of the second with the same fuel.
pub record Refines (f g : Function) : Type 0 where
  pub entry : g.entry_block ≡ f.entry_block
  pub parameters : g.parameters ≡ f.parameters
  pub size : length g.arena ≡ length f.arena
  pub runs :
      (M : Model)
      (call_function : ℕ → List Value → RegisterFile → Outcome (Option Value × RegisterFile))
      (n k : ℕ) (i : Interpreter)
      → Extends (blocks_from M call_function n f k i) (blocks_from M call_function n g k i)

refl-Refines : (f : Function) → Refines f f
refl-Refines f = record {
  entry = refl;
  parameters = refl;
  size = refl;
  runs = λ M call_function n k i. unchanged;
}

trans-Refines : (f g h : Function) → Refines f g → Refines g h → Refines f h
trans-Refines f g h r r' = record {
  entry = r'.entry ∙ r.entry;
  parameters = r'.parameters ∙ r.parameters;
  size = r'.size ∙ r.size;
  runs = λ M call_function n k i.
      trans-Extends (r.runs M call_function n k i) (r'.runs M call_function n k i);
}

module _ (f : Function) (block : ℕ) (b : Block) (found : index f.arena block ≡ ok b) (ref : ℕ)
    (s s' : Statement) (at : index b.statement_arena ref ≡ ok s) (threads : Threads f s s') where
  replace-IsThreaded : IsThreaded f (replace f block b ref s')
  unfolding IsThreaded replace Threaded
  replace-IsThreaded k = elim (index-set f.arena block _ (index_lt f.arena block found) k) [
    | inl e ↦ inl e
    | inr (e, h) ↦ inr (
      b,
      record b { statement_arena = set b.statement_arena ref s' },
      ap (index f.arena) e ∙ found,
      h,
      refl,
      length-set b.statement_arena ref s',
      λ j. elim (index-set b.statement_arena ref s' (index_lt b.statement_arena ref at) j) [
        | inl same ↦ inl same
        | inr (e', h') ↦ inr (s, s', threads, ap (index b.statement_arena) e' ∙ at, h')
      ],
    )
  ]

  replace-Refines : Refines f (replace f block b ref s')
  unfolding replace
  replace-Refines = record {
    entry = refl;
    parameters = refl;
    size = length-set f.arena block _;
    runs = λ M call_function n k i.
        blocks-IsThreaded M call_function f (replace f block b ref s') replace-IsThreaded n k i;
  }

  replace_block-IsFormed :
      {n : ℕ}
      → IsFormedBlock n b
      → Within n (targets_of s')
      → IsFormedBlock n (record b { statement_arena = set b.statement_arena ref s' })
  unfolding terminator_statement
  replace_block-IsFormed {n} formed w = record {
    statements_in =
        subst (λ m. Within m b.statements) (sym (length-set b.statement_arena ref s'))
          formed.statements_in;
    terminator = formed.terminator;
    terminated = formed.terminated;
    targets_in = λ j t h.
        elim (index-set b.statement_arena ref s' (index_lt b.statement_arena ref at) j) [
          | inl same ↦ formed.targets_in j t (sym same ∙ h)
          | inr (e, h') ↦ let eq : s' ≡ t = cc in subst (λ z. Within n (targets_of z)) eq w
        ];
  }

  replace-IsFormed :
      IsFormed f → Within (length f.arena) (targets_of s') → IsFormed (replace f block b ref s')
  unfolding replace
  replace-IsFormed formed w =
      let size : length
            (set f.arena block (record b { statement_arena = set b.statement_arena ref s' }))
          ≡ length f.arena =
        length-set f.arena block _ in
      record {
        entry_in = subst (λ m. f.entry_block < m) (sym size) formed.entry_in;
        blocks_formed = λ k c h.
            subst (λ m. IsFormedBlock m c) (sym size)
              (elim (index-set f.arena block _ (index_lt f.arena block found) k) [
                | inl same ↦ formed.blocks_formed k c (sym same ∙ h)
                | inr (e, h') ↦
                    let eq : record b { statement_arena = set b.statement_arena ref s' } ≡ c = cc in
                    subst (IsFormedBlock (length f.arena)) eq
                      (replace_block-IsFormed (formed.blocks_formed block b found) w)
              ]);
      }

replaced-Refines :
    (f : Function) (block : ℕ) (b : Block)
    → index f.arena block ≡ ok b
    → (ref : ℕ) (s : Statement) → index b.statement_arena ref ≡ ok s
    → IsFormed f
    → (o : Option Statement) → IsReplacement f s o
    → IsFormed ((replaced f block b ref o).0) × Refines f ((replaced f block b ref o).0)
unfolding replaced IsReplacement
replaced-Refines f block b found ref s at formed none h = (formed, refl-Refines f)
replaced-Refines f block b found ref s at formed (some s') h = (
  replace-IsFormed f block b found ref s s' at ((h s' refl).0) formed ((h s' refl).1),
  replace-Refines f block b found ref s s' at ((h s' refl).0),
)

run_on_block_total :
    (f : Function) (block : ℕ)
    → IsFormed f
    → block < length f.arena
    → (out : Function × Bool) × (run_on_block f block ≡ ok out)
      × IsFormed (out.0)
      × Refines f (out.0)
unfolding run_on_block replaced IsReplacement
run_on_block_total f block formed h =
    let found = index_total f.arena block h in
    let b : Block = found.0 in
    let inside = formed.blocks_formed block b (found.1) in
    let final = terminator_in b inside in
    let result =
      thread_total f (final.0) formed (inside.targets_in inside.terminator (final.0) (final.1)) in
    let both =
      replaced-Refines f block b (found.1) inside.terminator (final.0) (final.1) formed (result.0)
        (result.2) in
    (
      replaced f block b inside.terminator (result.0),
      rw (found.1, inside.terminated, final.1, result.1) refl,
      both.0,
      both.1,
    )

pub run_on_blocks_total :
    (f : Function) (blocks : List ℕ)
    → IsFormed f
    → Within (length f.arena) blocks
    → (out : Function × Bool) × (run_on_blocks f blocks ≡ ok out)
      × IsFormed (out.0)
      × Refines f (out.0)
unfolding run_on_blocks Within
run_on_blocks_total f [] formed w = ((f, false), refl, formed, refl-Refines f)
run_on_blocks_total f (block ∷ blocks) formed w =
    let first = run_on_block_total f block formed (w.0) in
    let g : Function = first.0.0 in
    let rest =
      run_on_blocks_total g blocks (first.2)
        (subst (λ m. Within m blocks) (sym (first.3).size) (w.1)) in
    (
      (rest.0.0, first.0.1 || rest.0.1),
      rw (first.1, rest.1) refl,
      rest.2,
      trans-Refines f g (rest.0.0) (first.3) (rest.3),
    )
