-- ===== src/Sentinel/WellFormed.antt =====
-- The states that the host may write, and their strings.
use streammate_studio_host.Prelude.{
  ℕ, ◌≤◌, ◌<◌, ◌≡◌, ◌⊎◌, inl, inr, arith, Bool, true, false, [], leb, Bytes, codes, equal_iff,
  length, All, IsText,
}
use streammate_studio_host.Prelude.Ordered.Laws.{keys, Ascending}
use streammate_studio_host.Prelude.Result.{ok}
use streammate_studio_host.Scanner.Strings.{string-json_escape}
use streammate_studio_host.Manifest.{is_module_ref}
use streammate_studio_host.Sentinel.{max_suspects, idle, loading, deadline_exceeded, State, quote}
use streammate_studio_host.Sentinel.Parse.{is_phase, is_kind, checked_string}

-- A module reference of bytes.
abbrev pub IsRef : Bytes → Type 0
IsRef ref = (is_module_ref ref ≡ true) × IsText ref

abbrev pub IsSuspect : Bytes × Bytes → Type 0
IsSuspect e = IsRef e.0 × (is_kind e.1 ≡ true)

-- The states that the host may write.
pub record IsWellFormed (s : State) : Type 0 where
  pub phase : is_phase s.phase ≡ true
  pub module_ref : (s.module_ref ≡ []) ⊎ IsRef s.module_ref
  pub attributed : s.module_ref ≡ [] → s.phase ≡ idle
  pub suspects : All IsSuspect s.suspects
  pub suspects_order : Ascending (keys s.suspects)
  pub suspects_bound : length s.suspects ≤ max_suspects
  pub retries : All IsRef s.consumed_retries
  pub retries_order : Ascending s.consumed_retries

pub checked_string-quote :
    (test : Bytes → Bool) (s rest : Bytes)
    → IsText s
    → test s ≡ true
    → checked_string test (quote s rest) ≡ ok (s, rest)
unfolding checked_string
checked_string-quote test s rest h e = rw (string-json_escape s rest h, e)

pub is_kind_cases :
    (kind : Bytes) → is_kind kind ≡ true → (kind ≡ codes "crash") ⊎ (kind ≡ codes "hang")
unfolding is_kind
is_kind_cases kind h = ground (arith, equal_iff kind (codes "crash"), equal_iff kind (codes "hang"))

pub is_kind-IsText : (kind : Bytes) → is_kind kind ≡ true → IsText kind
is_kind-IsText kind h = elim (is_kind_cases kind h) [
  | inl e ↦ rw e (omega arith)
  | inr e ↦ rw e (omega arith)
]

pub is_phase_cases :
    (phase : Bytes)
    → is_phase phase ≡ true
    → (phase ≡ idle) ⊎ ((phase ≡ loading) ⊎ (phase ≡ deadline_exceeded))
unfolding is_phase
is_phase_cases phase h =
    ground (arith, equal_iff phase idle, equal_iff phase loading, equal_iff phase deadline_exceeded)

pub is_phase-IsText : (phase : Bytes) → is_phase phase ≡ true → IsText phase
is_phase-IsText phase h = elim (is_phase_cases phase h) [
  | inl e ↦ rw e (omega arith)
  | inr (inl e) ↦ rw e (omega arith)
  | inr (inr e) ↦ rw e (omega arith)
]

pub lt→leb : (a b : ℕ) → b < a → leb a b ≡ false
lt→leb a b h = ground arith
