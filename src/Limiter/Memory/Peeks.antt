-- ===== src/Limiter/Memory/Peeks.antt =====
-- `Peek` of internal/limiter/memory.go, under the policy that the entries were last used with.
use rate_limiting_reverse_pr.Prelude.{
  ℕ, ◌≡◌, refl, sym, ◌∙◌, ap, Bool, true, false, none, some, String, List, [], arith, length,
  Bool-cases, Option-cases, inl, inr, subst,
}
use rate_limiting_reverse_pr.Prelude.Int.{ℤ, pos, i64, ◌-ℤ◌, ◌≤ℤ◌, -ℤ_parts, IsClock}
use rate_limiting_reverse_pr.Prelude.Dict.{lookup, same_key, same_key→eq}
use rate_limiting_reverse_pr.Limiter.Policy.{
  Policy, IsEnforceable, normalize, normalize-IsEnforceable,
}
use rate_limiting_reverse_pr.Limiter.Window.{live, IsUpTo-mono}
use rate_limiting_reverse_pr.Limiter.Memory.{MemEntry, Memory, write, peek, prune}
use rate_limiting_reverse_pr.Limiter.Memory.Ordered.{live-live}
use rate_limiting_reverse_pr.Limiter.Memory.Tracks.{Tracks, kept-live}
use rate_limiting_reverse_pr.Limiter.Memory.Store.{
  view, IsSound, view-write_self, view-write_ne, write-IsSound,
}
use rate_limiting_reverse_pr.Limiter.Memory.Trace.{Logs, TracksAll, waits-Tracks}

-- What a peek finds and leaves of one entry.
pub record IsPeeked (k : String) (q : Policy) (now : ℤ) (log : List ℤ) (m : Memory)
    (r : Memory × ℤ × Bool) : Type 0 where
  pub used : r.1 ≡ pos (length (live (now -ℤ q.window) log))
  pub own : Tracks q now (view k r.0) log
  pub others : (j : String) → same_key k j ≡ false → view j r.0 ≡ view j m
  pub sound : IsSound r.0

live_nothing :
    (now later cutoff w : ℤ) (log : List ℤ)
    → cutoff ≤ℤ now -ℤ w
    → now ≤ℤ later
    → [] ≡ live cutoff log
    → live (later -ℤ w) log ≡ []
live_nothing now later cutoff w log b le h =
    sym (live-live cutoff (later -ℤ w) log (omega (arith, -ℤ_parts now w, -ℤ_parts later w)))
    ∙ ap (live (later -ℤ w)) (sym h)

peek_missing :
    (k : String) (q : Policy) (now : ℤ) (m : Memory)
    → lookup k m.entries ≡ none
    → peek k q now m ≡ (m, pos 0, false)
unfolding peek
peek_missing k q now m e = rw (e, peek)

-- The hits that a peek leaves.
abbrev peeked_hits : Policy → ℤ → MemEntry → List ℤ
peeked_hits q now e = prune (i64 (i64 now -ℤ (normalize q).window)) e.hits

peek_found :
    (k : String) (q : Policy) (now : ℤ) (m : Memory) (a : ℕ)
    → lookup k m.entries ≡ some a
    → let kept = peeked_hits q now (m.heap a) in
      peek k q now m ≡ (write a (record (m.heap a) { hits = kept }) m, pos (length kept), true)
unfolding peek
peek_found k q now m a e = rw (e, peek)

view_found :
    (k : String) (m : Memory) (a : ℕ) → lookup k m.entries ≡ some a → view k m ≡ some (m.heap a)
unfolding view
view_found k m a e = rw (e, view)

view_missing : (k : String) (m : Memory) → lookup k m.entries ≡ none → view k m ≡ none
unfolding view
view_missing k m e = rw (e, view)

-- An entry from which nothing was dropped but what has left the window.
pruned-Tracks :
    (p : Policy) (now later : ℤ) (e : MemEntry) (hits log : List ℤ)
    → Tracks p now (some e) log
    → now ≤ℤ later
    → hits ≡ live (later -ℤ p.window) log
    → Tracks p later (some (record e { hits = hits })) log
pruned-Tracks p now later e hits log t le h = record {
  ascending = t.ascending;
  up_to = IsUpTo-mono now later log le t.up_to;
  cutoff = later -ℤ p.window;
  behind = omega arith;
  hits = h;
  entry = t.entry;
}

-- A peek reports what still counts, and forgets nothing that does.
pub peek-IsPeeked :
    (k : String) (q : Policy) (now later : ℤ) (m : Memory) (logs : Logs)
    → TracksAll (normalize q) now m logs
    → now ≤ℤ later
    → IsClock later
    → IsPeeked k (normalize q) later (logs k) m (peek k q later m)
peek-IsPeeked k q now later m logs t le clock =
    let p = normalize q in
    let tracked : Tracks p now (view k m) (logs k) = t.1 k in
    elim (Option-cases (lookup k m.entries)) [
      | inl e ↦ rw (peek_missing k q later m e) (record {
        used =
            let gone : Tracks p now none (logs k) = rw (← view_missing k m e) tracked in
            rw (live_nothing now later gone.cutoff p.window (logs k) gone.behind le gone.hits) refl;
        own = waits-Tracks p (normalize-IsEnforceable q) now later (view k m) (logs k) le tracked;
        others = λ j n. refl;
        sound = t.0;
      })
      | inr (a, e) ↦
          let here : Tracks p now (some (m.heap a)) (logs k) = rw (← view_found k m a e) tracked in
          let kept =
            kept-live p (normalize-IsEnforceable q) now later here.cutoff (m.heap a).hits (logs k)
              here.ascending here.behind le clock here.hits in
          rw (peek_found k q later m a e) (record {
            used = rw kept refl;
            own =
                rw (view-write_self k a _ m e)
                  (pruned-Tracks p now later (m.heap a) _ (logs k) here le kept);
            others = λ j n. view-write_ne k j a _ m t.0 e n;
            sound = write-IsSound a _ m t.0;
          })
    ]

pub peeked-TracksAll :
    (k : String) (p : Policy) (now later : ℤ) (m : Memory) (logs : Logs) (r : Memory × ℤ × Bool)
    → IsEnforceable p
    → TracksAll p now m logs
    → now ≤ℤ later
    → IsPeeked k p later (logs k) m r
    → TracksAll p later r.0 logs
peeked-TracksAll k p now later m logs r enforceable t le peeked = (
  peeked.sound,
  λ j. elim (Bool-cases (same_key k j)) [
    | inl hit ↦ subst (λ i. Tracks p later (view i r.0) (logs i)) (same_key→eq k j hit) peeked.own
    | inr miss ↦
        rw (peeked.others j miss)
          (waits-Tracks p enforceable now later (view j m) (logs j) le (t.1 j))
  ],
)
