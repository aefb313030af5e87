-- ===== src/Wal/Replay/Transactions.antt =====
-- What a replay makes of whole, broken and interleaved transactions.
use mathlib.Core.List.{append_assoc, append-nil}
use molten_db.Prelude.{
  ℕ, Bool, false, none, some, List, [], ◌∷◌, ◌++◌, ◌≡◌, refl, sym, ap, ◌∙◌, arith, Str, All,
  str_beq, str_beq_iff, str_beq_refl,
}
use molten_db.Json.{Value}
use molten_db.Wal.Command
use molten_db.Wal.Entry.{LogEntry}
use molten_db.Wal.Replay.{
  Memory, Replay, apply_entry, apply_all, is_active, replay_step, replay_from, stream_into_state,
}

-- An entry that opens or closes no transaction.
abbrev pub IsPlain : LogEntry → Type 0
IsPlain e =
    (str_beq e.cmd Command.ikey_tx_begin ≡ false) × (str_beq e.cmd Command.ikey_tx_commit ≡ false)

abbrev pub Begins : Str → LogEntry → Type 0
Begins t e = (e.cmd ≡ Command.ikey_tx_begin) × (e.key ≡ t)

abbrev pub Commits : Str → LogEntry → Type 0
Commits t e = (e.cmd ≡ Command.ikey_tx_commit) × (e.key ≡ t)

abbrev open_at : Memory → Str → List LogEntry → Replay
open_at m t buffer = record { memory = m; active_tx = some t; tx_buffer = buffer }

abbrev pub closed : Memory → Replay
closed m = record { memory = m; active_tx = none; tx_buffer = [] }

module _ (compiles : Value → Bool) (now : ℕ) where
  begin_step :
      (r : Replay) (t : Str) (e : LogEntry)
      → Begins t e
      → replay_step compiles now r e ≡ open_at r.memory t []
  unfolding replay_step str_beq
  begin_step r t e b = rw (b.0, b.1)

  plain_step :
      (m : Memory) (t : Str) (buffer : List LogEntry) (e : LogEntry)
      → IsPlain e
      → replay_step compiles now (open_at m t buffer) e ≡ open_at m t (buffer ++ e ∷ [])
  unfolding replay_step
  plain_step m t buffer e p = rw (p.0, p.1)

  commit_step :
      (m : Memory) (t : Str) (buffer : List LogEntry) (e : LogEntry)
      → Commits t e
      → replay_step compiles now (open_at m t buffer) e ≡ closed (apply_all compiles now m buffer)
  unfolding replay_step is_active
  commit_step m t buffer e c = ground (
    arith,
    c.0,
    c.1,
    str_beq_refl t,
    str_beq_refl Command.ikey_tx_commit,
    str_beq_iff e.cmd Command.ikey_tx_begin,
  )

  -- A commit without an open transaction is ignored.
  stray_commit :
      (m : Memory) (t : Str) (e : LogEntry)
      → Commits t e
      → replay_step compiles now (closed m) e ≡ closed m
  unfolding replay_step is_active str_beq
  stray_commit m t e c = rw c.0

  after :
      (r : Replay) (e : LogEntry) {r' : Replay} (log : List LogEntry)
      → replay_step compiles now r e ≡ r'
      → replay_from compiles now r (e ∷ log) ≡ replay_from compiles now r' log
  unfolding replay_from
  after _ _ log h = ap (λ r. replay_from compiles now r log) h

  -- An open transaction buffers.
  replay_body :
      (m : Memory) (t : Str) (buffer body rest : List LogEntry)
      → All IsPlain body
      → replay_from compiles now (open_at m t buffer) (body ++ rest)
        ≡ replay_from compiles now (open_at m t (buffer ++ body)) rest
  unfolding replay_from
  replay_body m t buffer [] rest p = rw append-nil
  replay_body m t buffer (e ∷ body) rest p =
      after _ _ (body ++ rest) (plain_step m t buffer e p.0)
      ∙ replay_body m t (buffer ++ e ∷ []) body rest p.1
      ∙ rw append_assoc

  apply_step :
      (m : Memory) (e : LogEntry)
      → IsPlain e
      → replay_step compiles now (closed m) e ≡ closed (apply_entry compiles now m e)
  unfolding replay_step
  apply_step m e p = rw (p.0, p.1)

  -- Outside transactions, plain entries are applied at once.
  replay_plain :
      (m : Memory) (es rest : List LogEntry)
      → All IsPlain es
      → replay_from compiles now (closed m) (es ++ rest)
        ≡ replay_from compiles now (closed (apply_all compiles now m es)) rest
  unfolding replay_from apply_all
  replay_plain m [] rest p = refl
  replay_plain m (e ∷ es) rest p =
      after _ _ (es ++ rest) (apply_step m e p.0)
      ∙ replay_plain (apply_entry compiles now m e) es rest p.1

  pub replay_from-append :
      (r : Replay) (xs ys : List LogEntry)
      → replay_from compiles now r (xs ++ ys)
        ≡ replay_from compiles now (replay_from compiles now r xs) ys
  unfolding replay_from
  replay_from-append r [] ys = refl
  replay_from-append r (x ∷ xs) ys = replay_from-append (replay_step compiles now r x) xs ys

  -- A whole transaction is applied, whatever was open before.
  pub replay_transaction :
      (r : Replay) (t : Str) (b c : LogEntry) (body rest : List LogEntry)
      → Begins t b
      → All IsPlain body
      → Commits t c
      → replay_from compiles now r (b ∷ (body ++ c ∷ rest))
        ≡ replay_from compiles now (closed (apply_all compiles now r.memory body)) rest
  unfolding replay_from
  replay_transaction r t b c body rest hb p hc =
      after _ _ (body ++ c ∷ rest) (begin_step r t b hb)
      ∙ replay_body r.memory t [] body (c ∷ rest) p
      ∙ after _ _ rest (commit_step r.memory t body c hc)

  -- Where the replay of a log stands, for what is open only the buffer matters.
  abbrev standing : Memory → List LogEntry → Replay
  standing m log = replay_from compiles now (closed m) log

  module _ (m : Memory) (log : List LogEntry) where
    -- A transaction that the log ends in before its commit leaves no trace in memory.
    pub stream_into_state-unfinished :
        (t : Str) (b : LogEntry) (body : List LogEntry)
        → Begins t b
        → All IsPlain body
        → stream_into_state compiles now m (log ++ b ∷ body) ≡ stream_into_state compiles now m log
    unfolding stream_into_state replay_from
    stream_into_state-unfinished t b body hb p =
        ap (λ r. r.memory)
          (replay_from-append (closed m) log (b ∷ body)
            ∙ after _ _ body (begin_step (standing m log) t b hb)
            ∙ ap (replay_from compiles now (open_at (standing m log).memory t []))
                (sym (append-nil body))
            ∙ replay_body (standing m log).memory t [] body [] p)

    -- A committed transaction is applied whole and in order, and the log after it is replayed on the
    -- result, whatever the log before it left open.
    pub stream_into_state-transaction :
        (t : Str) (b c : LogEntry) (body rest : List LogEntry)
        → Begins t b
        → All IsPlain body
        → Commits t c
        → stream_into_state compiles now m (log ++ b ∷ (body ++ c ∷ rest))
          ≡ stream_into_state compiles now
              (apply_all compiles now (stream_into_state compiles now m log) body)
              rest
    unfolding stream_into_state
    stream_into_state-transaction t b c body rest hb p hc =
        ap (λ r. r.memory)
          (replay_from-append (closed m) log (b ∷ (body ++ c ∷ rest))
            ∙ replay_transaction (standing m log) t b c body rest hb p hc)

    -- Two transactions that overlap in the log: the second one's begin drops what the first one
    -- wrote before it, although both are committed. What the first one wrote after the second one's
    -- commit is applied.
    pub stream_into_state-interleaved :
        (t u : Str) (b b' c c' : LogEntry) (xs ys zs rest : List LogEntry)
        → Begins t b
        → Begins u b'
        → Commits t c
        → Commits u c'
        → All IsPlain xs
        → All IsPlain ys
        → All IsPlain zs
        → stream_into_state compiles now m (log ++ b ∷ (xs ++ b' ∷ (ys ++ c' ∷ (zs ++ c ∷ rest))))
          ≡ stream_into_state compiles now
              (apply_all compiles now
                (apply_all compiles now (stream_into_state compiles now m log) ys)
                zs)
              rest
    unfolding stream_into_state
    stream_into_state-interleaved t u b b' c c' xs ys zs rest hb hb' hc hc' px py pz =
        ap (λ r. r.memory)
          (replay_from-append (closed m) log (b ∷ (xs ++ b' ∷ (ys ++ c' ∷ (zs ++ c ∷ rest))))
            ∙ after _ _ (xs ++ b' ∷ (ys ++ c' ∷ (zs ++ c ∷ rest)))
                (begin_step (standing m log) t b hb)
            ∙ replay_body (standing m log).memory t [] xs (b' ∷ (ys ++ c' ∷ (zs ++ c ∷ rest))) px
            ∙ replay_transaction (open_at (standing m log).memory t xs) u b' c' ys (zs ++ c ∷ rest)
                hb' py hc'
            ∙ replay_plain (apply_all compiles now (standing m log).memory ys) zs (c ∷ rest) pz
            ∙ after _ _ rest (
                stray_commit
                  (apply_all compiles now (apply_all compiles now (standing m log).memory ys) zs) t
                  c hc))
