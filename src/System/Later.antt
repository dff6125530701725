-- ===== src/System/Later.antt =====
-- What no call changes: the clock, what stands in the file system besides regular files, the plan
-- of what fails, and which file a path leads to.
use egress_router.Common.{
  ℕ, ◌≤◌, ◌≡◌, inl, inr, refl, ◌∙◌, arith, Text, text_eq, Option-cases, Result, ok, err,
}
use egress_router.System.{
  World, fate, tick, Call, chmod, write, close, sync, alive, remove, rename, temp_name, create_temp,
  read_file, stat, Io, ◌>>=◌,
}
use egress_router.System.Frame.{Fate-cases}

pub record IsLater (w w' : World) : Type 0 where
  pub clock : w'.clock ≡ w.clock
  pub others : w'.others ≡ w.others
  pub plan : w'.plan ≡ w.plan
  pub inodes : w'.inodes ≡ w.inodes
  pub calls : w.calls ≤ w'.calls

pub same_time : (w : World) → IsLater w w
same_time w = record {
  clock = refl;
  others = refl;
  plan = refl;
  inodes = refl;
  calls = omega arith;
}

pub later : {w₁ w₂ w₃ : World} → IsLater w₁ w₂ → IsLater w₂ w₃ → IsLater w₁ w₃
later a b = record {
  clock = b.clock ∙ a.clock;
  others = b.others ∙ a.others;
  plan = b.plan ∙ a.plan;
  inodes = b.inodes ∙ a.inodes;
  calls = omega (arith, a.calls, b.calls);
}

pub tick-Later : (w : World) → IsLater w (tick w)
tick-Later w = record {
  clock = refl;
  others = refl;
  plan = refl;
  inodes = refl;
  calls = omega arith;
}

abbrev pub Later : {E A : Type 0} → Io E A → Type 0
Later m = (w : World) → IsLater w (m w).0

pub >>=-Later :
    {E A B : Type 0} (m : Io E A) (f : A → Io E B)
    → Later m
    → ((a : A) → Later (f a))
    → Later (m >>= f)
>>=-Later {E} {A} {B} m f h k w = step (m w) (h w)
  where
    step : (p : World × Result E A) → IsLater w p.0 → IsLater w (◌>>=◌ {B = B} (λ _. p) f w).0
    step (w', ok a) l = later l (k a w')
    step (w', err x) l = l

abbrev LaterBy : Call → Type 0
LaterBy call = (w : World) → IsLater w (call w).0

pub chmod-Later : (p : Text) (mode : ℕ) → LaterBy (chmod p mode)
unfolding chmod
chmod-Later p mode w = record {
  clock = ground arith;
  others = ground arith;
  plan = ground arith;
  inodes = ground arith;
  calls = ground arith;
}

pub write-Later : (p s : Text) → LaterBy (write p s)
unfolding write
write-Later p s w = record {
  clock = ground arith;
  others = ground arith;
  plan = ground arith;
  inodes = ground arith;
  calls = ground arith;
}

pub close-Later : (p : Text) → LaterBy (close p)
unfolding close
close-Later p w = record {
  clock = ground arith;
  others = ground arith;
  plan = ground arith;
  inodes = ground arith;
  calls = ground arith;
}

pub sync-Later : (p : Text) → LaterBy (sync p)
unfolding sync
sync-Later p w = record {
  clock = ground arith;
  others = ground arith;
  plan = ground arith;
  inodes = ground arith;
  calls = ground arith;
}

pub alive-Later : LaterBy alive
unfolding alive
alive-Later w = record {
  clock = ground arith;
  others = ground arith;
  plan = ground arith;
  inodes = ground arith;
  calls = ground arith;
}

pub read_file-Later : (p : Text) (w : World) → IsLater w (read_file p w).0
unfolding read_file
read_file-Later p w = record {
  clock = ground arith;
  others = ground arith;
  plan = ground arith;
  inodes = ground arith;
  calls = ground arith;
}

pub stat-Later : (p : Text) (w : World) → IsLater w (stat p w).0
unfolding stat
stat-Later p w = record {
  clock = ground arith;
  others = ground arith;
  plan = ground arith;
  inodes = ground arith;
  calls = ground arith;
}

pub create_temp-Later : (d prefix : Text) (w : World) → IsLater w (create_temp d prefix w).0
unfolding create_temp
create_temp-Later d prefix w = elim (Fate-cases (fate w)) [
  | inr (s, e) ↦
      rw (e, create_temp)
        (record { clock = refl; others = refl; plan = refl; inodes = refl; calls = omega arith })
  | inl (random, e) ↦ elim (Option-cases (w.files (temp_name d prefix random))) [
    | inl free ↦
        rw (e, create_temp)
          (rw free (record {
            clock = refl;
            others = refl;
            plan = refl;
            inodes = refl;
            calls = omega arith;
          }))
    | inr (f, taken) ↦
        rw (e, create_temp)
          (rw taken (record {
            clock = refl;
            others = refl;
            plan = refl;
            inodes = refl;
            calls = omega arith;
          }))
  ]
]

pub remove-Later : (p : Text) → LaterBy (remove p)
unfolding remove
remove-Later p w = record {
  clock = ground arith;
  others = ground arith;
  plan = ground arith;
  inodes = ground arith;
  calls = ground arith;
}

pub rename-Later : (p q : Text) → LaterBy (rename p q)
unfolding rename
rename-Later p q w = elim (Fate-cases (fate w)) [
  | inr (s, e) ↦
      rw (e, rename)
        (record { clock = refl; others = refl; plan = refl; inodes = refl; calls = omega arith })
  | inl (s, e) ↦ elim (Option-cases (w.files p)) [
    | inl m ↦
        rw (e, rename)
          (rw m (record {
            clock = refl;
            others = refl;
            plan = refl;
            inodes = refl;
            calls = omega arith;
          }))
    | inr (f, m) ↦
        rw (e, rename)
          (rw m (record {
            clock = refl;
            others = refl;
            plan = refl;
            inodes = refl;
            calls = omega arith;
          }))
  ]
]
