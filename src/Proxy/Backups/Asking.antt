-- ===== src/Proxy/Backups/Asking.antt =====
-- The requests of a restore in proxy/src/backup.rs: how often and in which order.
use mathlib.Core.List.{append_assoc}
use pgvisor.Prelude.{
  ℕ, zero, suc, ◌<◌, ◌≡◌, refl, sym, ap, ◌∙◌, true, false, List, [], ◌∷◌, ◌++◌, ◌⊎◌, inl, inr,
  if_elim, arith,
}
use pgvisor.Prelude.Texts.{Text, chars_key}
use pgvisor.Backup.Store.{Operator}
use pgvisor.Proxy.Backups.{Call, resync, Network, World, host_of, called}
use pgvisor.Proxy.Backups.Restore.{
  conninfo, tell_all, is_accepted, resync_standby, resync_attempts, resync_all,
}

-- One call to each host in order, latest first.
abbrev pub told : (Text → Call) → List Text → List Call
told call [] = []
told call (s ∷ ss) = told call ss ++ call (host_of s) ∷ []

-- A call made so many times over.
abbrev pub repeat : ℕ → Call → List Call → List Call
repeat zero c cs = cs
repeat (suc n) c cs = repeat n c (c ∷ cs)

-- At least one request and at most five, ending with the first that is accepted.
pub record Tries (net : Network) (c : Call) (attempts : ℕ) (cs ds : List Call) : Type 0 where
  pub failed : ℕ
  pub bound : failed < attempts
  pub calls : ds ≡ repeat (suc failed) c cs
  pub failures : (i : ℕ) → i < failed → is_accepted (net.answer (repeat i c cs) c) ≡ false
  pub last : (is_accepted (net.answer (repeat failed c cs) c) ≡ true) ⊎ (suc failed ≡ attempts)

-- The standbys in order, each tried so.
pub data Resyncs (net : Network) (leader : Text) : List Text → List Call → List Call → Type 0 where
  done : (cs : List Call) → Resyncs net leader [] cs cs
  next :
      (s : Text) (ss : List Text) (cs ds es : List Call)
      → Tries net (resync (host_of s) (conninfo leader)) 5 cs ds
      → Resyncs net leader ss ds es
      → Resyncs net leader (s ∷ ss) cs es

module _ (op : Operator) (net : Network) where
  abbrev pub with_calls : World op → List Call → World op
  with_calls w cs = record w { calls = cs }

  pub tell_all_lem :
      (call : Text → Call) (w : World op) (ss : List Text)
      → tell_all op net call w ss ≡ with_calls w (told call ss ++ w.calls)
  unfolding tell_all called
  tell_all_lem call w [] = refl
  tell_all_lem call w (s ∷ ss) =
      tell_all_lem call (called op net w (call (host_of s))) ss
      ∙ ap (with_calls w) (sym (append_assoc (told call ss) (call (host_of s) ∷ []) w.calls))

  abbrev TriesWorld : Call → ℕ → World op → World op → Type 0
  TriesWorld c attempts w v = (v ≡ with_calls w v.calls) × Tries net c attempts w.calls v.calls

  resync_standby-Tries :
      (attempts : ℕ) (w : World op) (leader host : Text)
      → TriesWorld
          (resync host (conninfo leader))
          (suc attempts)
          w
          (resync_standby op net (suc attempts) w leader host)
  unfolding resync_standby called
  resync_standby-Tries zero w leader host =
      if_elim (TriesWorld c 1 w) (is_accepted (net.answer w.calls c))
        (λ success. (
          refl,
          record {
            failed = 0;
            bound = omega arith;
            calls = refl;
            failures = λ i h. absurd (omega arith);
            last = inl success;
          },
        ))
        (λ no. (
          refl,
          record {
            failed = 0;
            bound = omega arith;
            calls = refl;
            failures = λ i h. absurd (omega arith);
            last = inr refl;
          },
        ))
    where
      c : Call
      c = resync host (conninfo leader)
  resync_standby-Tries (suc attempts) w leader host =
      if_elim (TriesWorld c (suc (suc attempts)) w) (is_accepted (net.answer w.calls c))
        (λ success. (
          refl,
          record {
            failed = 0;
            bound = omega arith;
            calls = refl;
            failures = λ i h. absurd (omega arith);
            last = inl success;
          },
        ))
        (λ refusal. later refusal (resync_standby-Tries attempts (called op net w c) leader host))
    where
      c : Call
      c = resync host (conninfo leader)

      later :
          is_accepted (net.answer w.calls c) ≡ false
          → TriesWorld c
              (suc attempts)
              (called op net w c)
              (resync_standby op net (suc attempts) (called op net w c) leader host)
          → TriesWorld c
              (suc (suc attempts))
              w
              (resync_standby op net (suc attempts) (called op net w c) leader host)
      later refusal (e, t) = (
        e,
        record {
          failed = suc t.failed;
          bound = omega (arith, t.bound);
          calls = t.calls;
          failures = earlier;
          last = elim t.last [ inl success ↦ inl success | inr all ↦ inr (ap suc all) ];
        },
      )
        where
          earlier :
              (i : ℕ) → i < suc t.failed → is_accepted (net.answer (repeat i c w.calls) c) ≡ false
          earlier zero h = refusal
          earlier (suc i) h = t.failures i (omega arith)

  abbrev ResyncsWorld : Text → List Text → World op → World op → Type 0
  ResyncsWorld leader ss w v = (v ≡ with_calls w v.calls) × Resyncs net leader ss w.calls v.calls

  pub resync_all-Resyncs :
      (w : World op) (leader : Text) (ss : List Text)
      → ResyncsWorld leader ss w (resync_all op net w leader ss)
  unfolding resync_all
  resync_all-Resyncs w leader [] = (refl, done w.calls)
  resync_all-Resyncs w leader (s ∷ ss) =
      let first = resync_standby-Tries 4 w leader (host_of s) in
      let w' = resync_standby op net resync_attempts w leader (host_of s) in
      let rest = resync_all-Resyncs w' leader ss in
      (
        rest.0 ∙ ap (λ u. with_calls u (resync_all op net w' leader ss).calls) first.0,
        next s ss w.calls w'.calls _ first.1 rest.1,
      )
