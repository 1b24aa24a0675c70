-- ===== src/Supervisor/Logs.antt =====
-- src/services/nfa.rs: the bounded log of a supervisor.
use xjp_deploy_agent.Prelude.{
  ltb, Bool-cases, nat_eq, string_eq, length, length-append, ℕ, suc, ◌-◌, ◌≤◌, String, ◌≡◌, refl,
  sym, ap, ◌∙◌, inl, inr, List, [], ◌∷◌, ◌++◌, arith,
}
use mathlib.Core.List.{append-nil, append_assoc}
use xjp_deploy_agent.Supervisor.{
  ProcessState, max_lines, trim_front, push_line, push_log, skip_lines, clamp_tail, tail_logs,
}

trim_front_short : (n : ℕ) (lines : List String) → length lines ≤ n → trim_front n lines ≡ lines
unfolding trim_front
trim_front_short n [] h = refl
trim_front_short n (line ∷ lines) h = ground arith

length-trim_front-le : (n : ℕ) (lines : List String) → length (trim_front n lines) ≤ n
unfolding trim_front
length-trim_front-le n [] = omega arith
length-trim_front-le n (line ∷ lines) = ground (arith, length-trim_front-le n lines)

trim_front-append :
    (n : ℕ) (lines more : List String)
    → trim_front n (trim_front n lines ++ more) ≡ trim_front n (lines ++ more)
unfolding trim_front
trim_front-append n [] more = refl
trim_front-append n (line ∷ lines) more =
    ground (arith, trim_front-append n lines more, length-append lines more)

trim_front-trim_front :
    (m n : ℕ) (lines : List String) → m ≤ n → trim_front m (trim_front n lines) ≡ trim_front m lines
unfolding trim_front
trim_front-trim_front m n [] h = refl
trim_front-trim_front m n (line ∷ lines) h = ground (arith, trim_front-trim_front m n lines h)

-- What is kept when all but the last `n` lines are skipped.
abbrev pub last : ℕ → List String → List String
last n lines = skip_lines (length lines - n) lines

skip_lines_one :
    (k n : ℕ) (line : String) (lines : List String)
    → k ≡ suc n
    → skip_lines k (line ∷ lines) ≡ skip_lines n lines
unfolding skip_lines
skip_lines_one k n line lines h = rw h refl

skip_lines_none : (k : ℕ) (lines : List String) → k ≡ 0 → skip_lines k lines ≡ lines
unfolding skip_lines
skip_lines_none k lines h = rw h refl

trim_front-last : (n : ℕ) (lines : List String) → last n lines ≡ trim_front n lines
unfolding trim_front
trim_front-last n [] = skip_lines_none (0 - n) [] (omega arith)
trim_front-last n (line ∷ lines) = elim (Bool-cases (ltb n (suc (length lines)))) [
  | inl long ↦ rw long (
      skip_lines_one (suc (length lines) - n) (length lines - n) line lines (ground arith)
      ∙ trim_front-last n lines)
  | inr short ↦ rw short (skip_lines_none (suc (length lines) - n) (line ∷ lines) (ground arith))
]

abbrev pub push_logs : ProcessState → List String → ProcessState
push_logs s [] = s
push_logs s (line ∷ lines) = push_logs (push_log s line) lines

log_lines-push_logs :
    (s : ProcessState) (earlier lines : List String)
    → s.log_lines ≡ trim_front max_lines earlier
    → (push_logs s lines).log_lines ≡ trim_front max_lines (earlier ++ lines)
unfolding push_log push_line
log_lines-push_logs s earlier [] h = rw append-nil h
log_lines-push_logs s earlier (line ∷ lines) h =
    log_lines-push_logs (push_log s line) (earlier ++ line ∷ []) lines
      (rw h (trim_front-append max_lines earlier (line ∷ [])))
    ∙ ap (trim_front max_lines) (append_assoc earlier (line ∷ []) lines)

clamp_tail_bounds : (tail : ℕ) → (1 ≤ clamp_tail tail) × (clamp_tail tail ≤ max_lines)
unfolding clamp_tail
clamp_tail_bounds tail = ground arith

-- Whatever lines are written to a log that holds at most five thousand, in their order: it holds at
-- most five thousand afterwards, and a request for the last `tail` lines gets the last ones of all
-- that it held and that were written, as many as asked for, but at least one and at most five
-- thousand of them.
pub tail_logs-push_logs :
    (s : ProcessState) (lines : List String) (tail : ℕ)
    → length s.log_lines ≤ max_lines
    → (length (push_logs s lines).log_lines ≤ max_lines)
      × (tail_logs (push_logs s lines) tail ≡ last (clamp_tail tail) (s.log_lines ++ lines))
unfolding tail_logs
tail_logs-push_logs s lines tail h =
    let all = s.log_lines ++ lines in
    let kept =
      log_lines-push_logs s s.log_lines lines (sym (trim_front_short max_lines s.log_lines h)) in
    let n = clamp_tail tail in
    (
      rw kept (length-trim_front-le max_lines all),
      rw (trim_front-last n (push_logs s lines).log_lines, kept, trim_front-last n all)
          (trim_front-trim_front n max_lines all (clamp_tail_bounds tail).1),
    )
