-- ===== src/Limiter/Memory/Sweep.antt =====
-- The janitor's work on one entry (`cleanup` of internal/limiter/memory.go): what it evicts or
-- prunes can no longer count.
use rate_limiting_reverse_pr.Prelude.{
  ◌≡◌, sym, ◌∙◌, true, false, Option, none, some, List, arith, if◌then◌else◌, Bool-cases, inl, inr,
}
use rate_limiting_reverse_pr.Prelude.Int.{
  ℤ, pos, ◌+ℤ◌, ◌-ℤ◌, ◌*ℤ◌, ◌≤ℤ◌, ◌<ℤ◌, i64, i64_id, i64-clocks-sub, IsClock, IsShort, +ℤ_parts,
  -ℤ_parts,
}
use rate_limiting_reverse_pr.Limiter.Policy.{Policy, IsEnforceable}
use rate_limiting_reverse_pr.Limiter.Window.{IsUpTo-mono}
use rate_limiting_reverse_pr.Limiter.Memory.{MemEntry, prune, sweep_entry}
use rate_limiting_reverse_pr.Limiter.Memory.Tracks.{Tracks, window-IsShort, kept-live}
use rate_limiting_reverse_pr.Limiter.Memory.Ordered.{live-eq-nil}

twice_short : (w : ℤ) → IsShort w → i64 (pos 2 *ℤ w) ≡ w +ℤ w
unfolding ◌*ℤ◌ ◌+ℤ◌
twice_short w s = i64_id _ (ground arith) ∙ ground arith

-- An entry is idle only if its last use lies more than twice its window back.
idle_old :
    (min_ttl now_ns : ℤ) (e : MemEntry)
    → (sweep_entry min_ttl now_ns e).1 ≡ true
    → i64 (pos 2 *ℤ e.window) <ℤ i64 (now_ns -ℤ e.last_seen)
unfolding sweep_entry
idle_old min_ttl now_ns e h = ground arith

busy_pruned :
    (min_ttl now_ns : ℤ) (e : MemEntry)
    → (sweep_entry min_ttl now_ns e).1 ≡ false
    → (sweep_entry min_ttl now_ns e).0 ≡ record e { hits = prune (i64 (now_ns -ℤ e.window)) e.hits }
unfolding sweep_entry
busy_pruned min_ttl now_ns e h = ground arith

-- What the janitor leaves of an entry.
unfoldable pub swept : ℤ → ℤ → Option MemEntry → Option MemEntry
swept min_ttl now_ns none = none
swept min_ttl now_ns (some e) =
    let (e', idle) = sweep_entry min_ttl now_ns e in if idle then none else some e'

module _ (p : Policy) (enforceable : IsEnforceable p) where
  twice_lt :
      (min_ttl later : ℤ) (e : MemEntry)
      → IsClock later
      → e.window ≡ p.window
      → IsClock e.last_seen
      → (sweep_entry min_ttl (i64 later) e).1 ≡ true
      → p.window +ℤ p.window <ℤ later -ℤ e.last_seen
  twice_lt min_ttl later e clock same seen idle =
      rw
        (
          ← twice_short p.window (window-IsShort p enforceable),
          ← same,
          ← i64-clocks-sub later e.last_seen clock seen,
        )
        (idle_old min_ttl (i64 later) e idle)

  old_lem :
      (min_ttl later : ℤ) (e : MemEntry)
      → IsClock later
      → e.window ≡ p.window
      → IsClock e.last_seen
      → (sweep_entry min_ttl (i64 later) e).1 ≡ true
      → e.last_seen ≤ℤ later -ℤ p.window
  old_lem min_ttl later e clock same seen idle = omega (
    arith,
    enforceable,
    twice_lt min_ttl later e clock same seen idle,
    -ℤ_parts later e.last_seen,
    -ℤ_parts later p.window,
    +ℤ_parts p.window p.window,
  )

  -- The janitor loses nothing that a later decision needs.
  pub swept-Tracks :
      (min_ttl now later : ℤ) (o : Option MemEntry) (log : List ℤ)
      → Tracks p now o log
      → now ≤ℤ later
      → IsClock later
      → Tracks p later (swept min_ttl (i64 later) o) log
  unfolding swept
  swept-Tracks min_ttl now later none log t le clock = record {
    ascending = t.ascending;
    up_to = IsUpTo-mono now later log le t.up_to;
    cutoff = t.cutoff;
    behind = omega (arith, t.behind, -ℤ_parts now p.window, -ℤ_parts later p.window);
    hits = t.hits;
    entry = tt;
  }
  swept-Tracks min_ttl now later (some e) log t le clock =
      elim (Bool-cases (sweep_entry min_ttl (i64 later) e).1) [
        | inl idle ↦
            rw (idle, swept)
              (record {
                ascending = t.ascending;
                up_to = IsUpTo-mono now later log le t.up_to;
                cutoff = e.last_seen;
                behind = old_lem min_ttl later e clock t.entry.1 t.entry.2 idle;
                hits = sym (live-eq-nil e.last_seen log t.entry.3);
                entry = tt;
              })
        | inr busy ↦
            rw (busy, swept, busy_pruned min_ttl (i64 later) e busy)
              (record {
                ascending = t.ascending;
                up_to = IsUpTo-mono now later log le t.up_to;
                cutoff = later -ℤ p.window;
                behind = omega arith;
                hits = rw t.entry.1 (
                    kept-live p enforceable now later t.cutoff e.hits log t.ascending t.behind le
                      clock t.hits);
                entry = t.entry;
              })
      ]
