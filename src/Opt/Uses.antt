-- ===== src/Opt/Uses.antt =====
-- `StatementUseAnalysis` of analysis/dfa.rs, without its queries on writes of variables.
use icewind.Common.{
  ℕ, ◌==◌, ◌||◌, ◌&&◌, not, Bool, true, false, List, [], ◌∷◌, ◌++◌, none, some, Outcome, ok, ◌>>=◌,
  index,
}
use icewind.Rudder.Statements
use icewind.Rudder.Statements.{Statement}

-- the statements that a statement is added as a use of
unfoldable pub used_by : Statement → List ℕ
used_by (Statements.write_variable symbol v) = v ∷ []
used_by (Statements.write_register offset v) = offset ∷ v ∷ []
used_by (Statements.read_register t offset) = offset ∷ []
used_by (Statements.read_memory address size) = address ∷ size ∷ []
used_by (Statements.write_memory address v) = address ∷ v ∷ []
used_by (Statements.write_pc v) = v ∷ []
used_by (Statements.binary_operation kind l r) = l ∷ r ∷ []
used_by (Statements.unary_operation kind v) = v ∷ []
used_by (Statements.shift_operation kind v amount) = v ∷ amount ∷ []
used_by (Statements.call target args t) = args
used_by (Statements.cast kind t v) = v ∷ []
used_by (Statements.bits_cast kind t v width) = v ∷ width ∷ []
used_by (Statements.branch c t f) = c ∷ []
used_by (Statements.return none) = []
used_by (Statements.return (some v)) = v ∷ []
used_by (Statements.select c t f) = c ∷ t ∷ f ∷ []
used_by (Statements.bit_extract v start width) = v ∷ start ∷ width ∷ []
used_by (Statements.bit_insert target source start width) = target ∷ source ∷ start ∷ width ∷ []
used_by (Statements.bit_replicate pattern count) = pattern ∷ count ∷ []
used_by (Statements.read_element v place) = v ∷ place ∷ []
used_by (Statements.assign_element v value place) = v ∷ value ∷ place ∷ []
used_by (Statements.check c) = c ∷ []
used_by (Statements.abort v) = v ∷ []
used_by (Statements.create_bits v width) = v ∷ width ∷ []
used_by (Statements.size_of v) = v ∷ []
used_by (Statements.matches_union v variant) = v ∷ []
used_by (Statements.unwrap_union v variant) = v ∷ []
used_by (Statements.get_flags operation) = operation ∷ []
used_by (Statements.read_variable symbol) = []
used_by Statements.read_pc = []
used_by (Statements.jump target) = []
used_by (Statements.phi_node members) = []
used_by (Statements.constant c) = []
used_by (Statements.tuple_access n source) = source ∷ []
used_by (Statements.create_tuple vs) = vs
used_by (Statements.create_real n d) = n ∷ d ∷ []
used_by (Statements.add_with_carry a b c) = a ∷ b ∷ c ∷ []
used_by (Statements.atomic_operation address compare operand kind) =
    address ∷ compare ∷ operand ∷ kind ∷ []

-- the keys of `stmt_uses`, with repetitions
unfoldable pub analyse : List Statement → List ℕ → Outcome (List ℕ)
analyse arena [] = ok []
analyse arena (stmt ∷ stmts) = do
  s ← index arena stmt
  rest ← analyse arena stmts
  ok (used_by s ++ rest)

unfoldable pub has_uses : List ℕ → ℕ → Bool
has_uses [] stmt = false
has_uses (key ∷ keys) stmt = key == stmt || has_uses keys stmt

module _ (is_pure : ℕ → Outcome Bool) where
  unfoldable pub has_side_effects : Statement → Outcome Bool
  has_side_effects (Statements.call target args t) = do pure ← is_pure target; ok (not pure)
  has_side_effects (Statements.write_variable symbol v) = ok true
  has_side_effects (Statements.write_register offset v) = ok true
  has_side_effects (Statements.write_memory address v) = ok true
  has_side_effects (Statements.write_pc v) = ok true
  has_side_effects (Statements.read_memory address size) = ok true
  has_side_effects (Statements.jump target) = ok true
  has_side_effects (Statements.branch c t f) = ok true
  has_side_effects (Statements.return v) = ok true
  has_side_effects (Statements.abort v) = ok true
  has_side_effects (Statements.check c) = ok true
  has_side_effects _ = ok false

  unfoldable pub is_dead : List Statement → List ℕ → ℕ → Outcome Bool
  is_dead arena keys stmt = do
    s ← index arena stmt
    effects ← has_side_effects s
    ok (not effects && not (has_uses keys stmt))
