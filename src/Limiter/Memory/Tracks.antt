-- ===== src/Limiter/Memory/Tracks.antt =====
-- One client's entry (internal/limiter/memory.go, the locked section of `Allow` and the body of
-- `cleanup`) against the log of `Limiter.Window`, which forgets nothing.
use rate_limiting_reverse_pr.Prelude.{
  ◌≡◌, refl, sym, ◌∙◌, true, false, Option, none, some, List, [], ◌∷◌, ◌++◌, arith, length,
}
use rate_limiting_reverse_pr.Prelude.Int.{
  ℤ, pos, ◌-ℤ◌, ◌≤ℤ◌, ◌<ℤ◌, i64, i64-clock, i64-clock-sub, IsClock, IsShort, -ℤ_parts, parts_lem,
}
use rate_limiting_reverse_pr.Limiter.Policy.{Policy, IsEnforceable, deny}
use rate_limiting_reverse_pr.Limiter.Window.{live, IsUpTo, IsUpTo-mono, admits, record_request}
use rate_limiting_reverse_pr.Limiter.Memory.{MemEntry, fresh_entry, prune, accept}
use rate_limiting_reverse_pr.Limiter.Memory.Entry.{
  outcome, outcome_of, admitted, refused, outcome_cases,
}
use rate_limiting_reverse_pr.Limiter.Memory.Ordered.{
  IsAscending, prune-live, live-live, live-snoc, live-IsAscending, snoc-IsAscending, snoc-IsUpTo,
}

abbrev pub hits_of : Option MemEntry → List ℤ
hits_of none = []
hits_of (some e) = e.hits

abbrev pub entry_or_fresh : Option MemEntry → MemEntry
entry_or_fresh none = fresh_entry
entry_or_fresh (some e) = e

abbrev pub Agrees : Policy → List ℤ → Option MemEntry → Type 0
Agrees p log none = Unit {0}
Agrees p log (some e) =
    (e.dead ≡ false) × (e.window ≡ p.window) × IsClock e.last_seen × IsUpTo e.last_seen log

-- At the time `now` the entry of a client, if there is one, knows of the log all that can still
-- matter under the policy.
pub record Tracks (p : Policy) (now : ℤ) (o : Option MemEntry) (log : List ℤ) : Type 0 where
  pub ascending : IsAscending log
  pub up_to : IsUpTo now log
  pub cutoff : ℤ
  pub behind : cutoff ≤ℤ now -ℤ p.window
  pub hits : hits_of o ≡ live cutoff log
  pub entry : Agrees p log o

module _ (p : Policy) (enforceable : IsEnforceable p) where
  pub window-IsShort : IsShort p.window
  window-IsShort = omega (arith, enforceable, parts_lem p.window)

  before : (now : ℤ) → now -ℤ p.window <ℤ now
  before now = omega (arith, enforceable, -ℤ_parts now p.window)

  pub kept-live :
      (now later cutoff : ℤ) (hits log : List ℤ)
      → IsAscending log
      → cutoff ≤ℤ now -ℤ p.window
      → now ≤ℤ later
      → IsClock later
      → hits ≡ live cutoff log
      → prune (i64 (i64 later -ℤ p.window)) hits ≡ live (later -ℤ p.window) log
  kept-live now later cutoff hits log a b le clock h =
      rw (i64-clock-sub later p.window clock window-IsShort, h)
        (prune-live _ _ (live-IsAscending cutoff log a)
          ∙ live-live cutoff (later -ℤ p.window) log
              (omega (arith, -ℤ_parts now p.window, -ℤ_parts later p.window)))

  admits-true :
      (now : ℤ) (log : List ℤ)
      → pos (length (live (now -ℤ p.window) log)) <ℤ p.limit
      → admits p now log ≡ true
  unfolding admits
  admits-true now log h = ground arith

  admits-false :
      (now : ℤ) (log : List ℤ)
      → p.limit ≤ℤ pos (length (live (now -ℤ p.window) log))
      → admits p now log ≡ false
  unfolding admits
  admits-false now log h = ground arith

  record_request-true :
      (now : ℤ) (log : List ℤ)
      → admits p now log ≡ true
      → record_request p now log ≡ log ++ now ∷ []
  unfolding record_request
  record_request-true now log h = rw h

  record_request-false :
      (now : ℤ) (log : List ℤ) → admits p now log ≡ false → record_request p now log ≡ log
  unfolding record_request
  record_request-false now log h = rw h

  pub Agrees-alive :
      (log : List ℤ) (o : Option MemEntry) → Agrees p log o → (entry_or_fresh o).dead ≡ false
  Agrees-alive log none h = refl
  Agrees-alive log (some e) h = h.0

  pub admitted-Tracks :
      (now later : ℤ) (o : Option MemEntry) (log kept : List ℤ)
      → Tracks p now o log
      → now ≤ℤ later
      → IsClock later
      → kept ≡ live (later -ℤ p.window) log
      → pos (length kept) <ℤ p.limit
      → let (e, d) = admitted (record (entry_or_fresh o) { last_seen = i64 later }) p later kept in
        (d.allowed ≡ admits p later log) × Tracks p later (some e) (record_request p later log)
  unfolding admitted accept
  admitted-Tracks now later o log kept t le clock k h =
      let yes_ : admits p later log ≡ true = admits-true later log (rw k at h) in
      let up : IsUpTo later log = IsUpTo-mono now later log le t.up_to in
      (
        sym yes_,
        rw (record_request-true later log yes_) (record {
          ascending = snoc-IsAscending later log t.ascending up;
          up_to = snoc-IsUpTo later later log up (omega arith);
          cutoff = later -ℤ p.window;
          behind = omega arith;
          hits =
              rw (k, i64-clock later clock)
                (sym (live-snoc (later -ℤ p.window) later log (before later)));
          entry = (
            Agrees-alive log o t.entry,
            refl,
            rw (i64-clock later clock) clock,
            rw (i64-clock later clock) (snoc-IsUpTo later later log up (omega arith)),
          );
        }),
      )

  pub refused-Tracks :
      (now later : ℤ) (o : Option MemEntry) (log kept : List ℤ)
      → Tracks p now o log
      → now ≤ℤ later
      → IsClock later
      → kept ≡ live (later -ℤ p.window) log
      → p.limit ≤ℤ pos (length kept)
      → let (e, d) = refused (record (entry_or_fresh o) { last_seen = i64 later }) p later kept in
        (d.allowed ≡ admits p later log) × Tracks p later (some e) (record_request p later log)
  unfolding refused deny
  refused-Tracks now later o log kept t le clock k h =
      let no_ : admits p later log ≡ false = admits-false later log (rw k at h) in
      let up : IsUpTo later log = IsUpTo-mono now later log le t.up_to in
      (
        sym no_,
        rw (record_request-false later log no_) (record {
          ascending = t.ascending;
          up_to = up;
          cutoff = later -ℤ p.window;
          behind = omega arith;
          hits = k;
          entry = (
            Agrees-alive log o t.entry,
            refl,
            rw (i64-clock later clock) clock,
            rw (i64-clock later clock) up,
          );
        }),
      )

  -- One request on the entry: the decision is that of the log, and the entry still tracks it.
  pub outcome-Tracks :
      (now later : ℤ) (o : Option MemEntry) (log kept : List ℤ)
      → Tracks p now o log
      → now ≤ℤ later
      → IsClock later
      → kept ≡ live (later -ℤ p.window) log
      → let (e, d) = outcome (record (entry_or_fresh o) { last_seen = i64 later }) p later kept in
        (d.allowed ≡ admits p later log) × Tracks p later (some e) (record_request p later log)
  outcome-Tracks now later o log kept t le clock k =
      outcome_cases
        (λ r.
          (r.1.allowed ≡ admits p later log)
          × Tracks p later (some r.0) (record_request p later log))
        (record (entry_or_fresh o) { last_seen = i64 later }) p later kept
        (λ room. admitted-Tracks now later o log kept t le clock k room)
        (λ full. refused-Tracks now later o log kept t le clock k full)

  hits_lem : (o : Option MemEntry) → (entry_or_fresh o).hits ≡ hits_of o
  hits_lem none = refl
  hits_lem (some e) = refl

  -- The same with the hits that the code keeps.
  pub outcome_of-Tracks :
      (now later : ℤ) (o : Option MemEntry) (log : List ℤ)
      → Tracks p now o log
      → now ≤ℤ later
      → IsClock later
      → let (e, d) = outcome_of (record (entry_or_fresh o) { last_seen = i64 later }) p later in
        (d.allowed ≡ admits p later log) × Tracks p later (some e) (record_request p later log)
  unfolding outcome_of
  outcome_of-Tracks now later o log t le clock =
      outcome-Tracks now later o log _ t le clock
        (kept-live now later t.cutoff _ log t.ascending t.behind le clock (hits_lem o ∙ t.hits))
