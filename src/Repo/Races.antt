-- ===== src/Repo/Races.antt =====
-- `Inner::update_mapping` of src/repo.rs called by several tasks at once. It reads the version
-- under the read lock, releases it, and takes the write lock later: other calls may come between.
use mathlib.Core.List.{foldl}
use feature_probe_server.Prelude.{
  ℕ, ◌≡◌, refl, sym, ap, ◌∙◌, ◌≤◌, Option, none, some, List, [], ◌∷◌, ◌++◌, arith, ltb, Bool-cases,
  inl, inr, All, if◌then◌else◌,
}
use feature_probe_server.Secrets
use feature_probe_server.Secrets.{SecretMapping}
use feature_probe_server.Secrets.Versions.{version-update_mapping}

-- A call that has not returned: its argument, and the version that it has read.
pub record Call : Type 0 where
  pub new : SecretMapping
  pub version : Option ℕ

-- The shared mapping, the calls that run, and the arguments of those that have returned, the last
-- one last.
pub record Race : Type 0 where
  pub mapping : SecretMapping
  pub running : List Call
  pub returned : List SecretMapping

-- The second half of a call, under the write lock.
unfoldable pub write : SecretMapping → ℕ → SecretMapping → SecretMapping
write mapping version new =
    if ltb version new.version then Secrets.update_mapping mapping new else mapping

pub data RaceStep : Race → Race → Type 0 where
  calls :
      (m : SecretMapping) (cs : List Call) (done : List SecretMapping) (new : SecretMapping)
      → RaceStep
          (record { mapping = m; running = cs; returned = done })
          (record {
            mapping = m;
            running = record { new = new; version = none } ∷ cs;
            returned = done;
          })
  reads :
      (m : SecretMapping) (before after : List Call) (done : List SecretMapping)
      (new : SecretMapping)
      → RaceStep
          (record {
            mapping = m;
            running = before ++ record { new = new; version = none } ∷ after;
            returned = done;
          })
          (record {
            mapping = m;
            running = before ++ record { new = new; version = some m.version } ∷ after;
            returned = done;
          })
  writes :
      (m : SecretMapping) (before after : List Call) (done : List SecretMapping)
      (new : SecretMapping) (version : ℕ)
      → RaceStep
          (record {
            mapping = m;
            running = before ++ record { new = new; version = some version } ∷ after;
            returned = done;
          })
          (record {
            mapping = write m version new;
            running = before ++ after;
            returned = done ++ new ∷ [];
          })

pub data RaceReach (s : Race) : Race → Type 0 where
  here : RaceReach s s
  next : {t u : Race} → RaceReach s t → RaceStep t u → RaceReach s u

-- The mapping before any call.
abbrev pub idle : SecretMapping → Race
idle m = record { mapping = m; running = []; returned = [] }

abbrev IsOld : SecretMapping → Call → Type 0
IsOld m c = elim c.version [ none ↦ Unit | some v ↦ v ≤ m.version ]

-- No call has read a version that is newer than the mapping, and the mapping is what the calls
-- that have returned make of the first one, in the order of their returns.
record IsSerial (first : SecretMapping) (r : Race) : Type 0 where
  old : All (IsOld r.mapping) r.running
  serial : r.mapping ≡ foldl Secrets.update_mapping first r.returned

module _ (P : Call → Type 0) where
  All-at : (before : List Call) (c : Call) (after : List Call) → All P (before ++ c ∷ after) → P c
  All-at [] c after (p, h) = p
  All-at (b ∷ before) c after (p, h) = All-at before c after h

  All-drop :
      (before : List Call) (c : Call) (after : List Call)
      → All P (before ++ c ∷ after)
      → All P (before ++ after)
  All-drop [] c after (p, h) = h
  All-drop (b ∷ before) c after (p, h) = (p, All-drop before c after h)

  All-put :
      (before : List Call) (c d : Call) (after : List Call)
      → P d
      → All P (before ++ c ∷ after)
      → All P (before ++ d ∷ after)
  All-put [] c d after q (p, h) = (q, h)
  All-put (b ∷ before) c d after q (p, h) = (p, All-put before c d after q h)

  All-imp : {Q : Call → Type 0} → ((c : Call) → P c → Q c) → (cs : List Call) → All P cs → All Q cs
  All-imp f [] h = tt
  All-imp f (c ∷ cs) (p, h) = (f c p, All-imp f cs h)

foldl-snoc :
    (m : SecretMapping) (xs : List SecretMapping) (x : SecretMapping)
    → foldl Secrets.update_mapping m (xs ++ x ∷ [])
      ≡ Secrets.update_mapping (foldl Secrets.update_mapping m xs) x
foldl-snoc m [] x = refl
foldl-snoc m (y ∷ xs) x = foldl-snoc (Secrets.update_mapping m y) xs x

-- The version that was read is never newer than the mapping that is written to, so the early
-- return of the first half is right still.
write-update_mapping :
    (m new : SecretMapping) (version : ℕ)
    → version ≤ m.version
    → write m version new ≡ Secrets.update_mapping m new
unfolding write Secrets.update_mapping
write-update_mapping m new version h = elim (Bool-cases (ltb version new.version)) [
  | inl newer ↦ rw newer refl
  | inr old ↦ ground arith
]

IsOld-mono : (m n : SecretMapping) (c : Call) → m.version ≤ n.version → IsOld m c → IsOld n c
IsOld-mono m n c h old = ground arith

RaceStep-IsSerial :
    {first : SecretMapping} {r s : Race} → RaceStep r s → IsSerial first r → IsSerial first s
RaceStep-IsSerial (calls m cs done new) h = record { old = (tt, h.old); serial = h.serial }
RaceStep-IsSerial (reads m before after done new) h = record {
  old =
      All-put (IsOld m) before (record { new = new; version = none })
        (record { new = new; version = some m.version }) after (omega arith) h.old;
  serial = h.serial;
}
RaceStep-IsSerial {first} (writes m before after done new version) h =
    let c : Call = record { new = new; version = some version } in
    let same = write-update_mapping m new version (All-at (IsOld m) before c after h.old) in
    let newer = version-update_mapping m new in
    record {
      old = rw same (
          All-imp (IsOld m) (λ d. IsOld-mono m (Secrets.update_mapping m new) d (omega arith))
            (before ++ after) (All-drop (IsOld m) before c after h.old));
      serial =
          same ∙ ap (λ k. Secrets.update_mapping k new) h.serial ∙ sym (foldl-snoc first done new);
    }

-- However the halves of calls of `update_mapping` are interleaved, from a point where no call runs,
-- the mapping is at each point what the calls that have returned make of the first one, each run
-- whole, in the order of their returns.
pub RaceReach-serial :
    (m : SecretMapping) {r : Race}
    → RaceReach (idle m) r
    → r.mapping ≡ foldl Secrets.update_mapping m r.returned
RaceReach-serial m reach = (serial_at reach).serial
  where
    serial_at : {r : Race} → RaceReach (idle m) r → IsSerial m r
    serial_at here = record { old = tt; serial = refl }
    serial_at (next before step) = RaceStep-IsSerial step (serial_at before)
