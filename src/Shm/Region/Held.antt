-- ===== src/Shm/Region/Held.antt =====
-- Proof: no error path keeps a descriptor or a mapping, and a region holds its own alone.
use coding_agent_sandbox.Common.{
  ℕ, ◌≡◌, refl, ap, Bool, true, false, List, [], ◌∷◌, ◌==◌, nat_eq, if◌then◌else◌, arith,
}
use coding_agent_sandbox.FilePath.{Name}
use coding_agent_sandbox.Sys.{
  Errno, Result, ok, err, SysCall, Answer, Process, done, invoke, chain, or_return, ◌>>=◌,
}
use coding_agent_sandbox.Shm.Region.{
  ShmError, ShmRegion, Opens, closed_with, on_mmap, map_region, on_truncate, on_open, on_cname,
  region_at, create_region, open_region, drop_with, on_mutex_init, on_pshared, on_attr_init,
  create_state, open_state, or_create, open_or_create, shm_layout_size,
}

-- The open descriptors and the mappings of the process that the calls have made.
pub record Held : Type 0 where
  pub fds : List ℕ
  pub maps : List ℕ

unfoldable pub remove_first : ℕ → List ℕ → List ℕ
remove_first n [] = []
remove_first n (m ∷ ms) = if n == m then ms else m ∷ remove_first n ms

-- `close` and `munmap` give up what they are called with.
abbrev pub after : (c : SysCall) → Answer c → Held → Held
after (SysCall.shm_open _ _) (ok fd) h = record h { fds = fd ∷ h.fds }
after (SysCall.mmap _ _) (ok ptr) h = record h { maps = ptr ∷ h.maps }
after (SysCall.close fd) a h = record h { fds = remove_first fd h.fds }
after (SysCall.munmap ptr) a h = record h { maps = remove_first ptr h.maps }
after _ a h = h

unfoldable pub Ends : {A : Type 0} → (Held → A → Type 0) → Held → Process A → Type 0
Ends Q h (done a) = Q h a
Ends Q h (invoke c k) = (a : Answer c) → Ends Q (after c a h) (k a)

Ends-chain :
    {A B : Type 0} (Q : Held → A → Type 0) (R : Held → B → Type 0) (h : Held) (m : Process A)
    (f : A → Process B)
    → Ends Q h m
    → ((g : Held) (a : A) → Q g a → Ends R g (f a))
    → Ends R h (chain m f)
unfolding Ends chain
Ends-chain Q R h (done a) f e t = t h a e
Ends-chain Q R h (invoke c k) f e t = λ a. Ends-chain Q R (after c a h) (k a) f (e a) t

-- A region holds its descriptor and its mapping besides those of the start, an error nothing.
abbrev pub Owns : Held → Held → Result ShmError ShmRegion → Type 0
Owns start h (ok r) = h ≡ record { fds = r.fd ∷ start.fds; maps = r.ptr ∷ start.maps }
Owns start h (err e) = h ≡ start

module _ (s : Held) where
  if-Ends :
      (b : Bool) (h : Held) (x y : Opens)
      → Ends (Owns s) h x
      → Ends (Owns s) h y
      → Ends (Owns s) h (if b then x else y)
  if-Ends true h x y e f = e
  if-Ends false h x y e f = f

  -- With one descriptor more, and with a mapping more.
  abbrev fd_more : ℕ → Held
  fd_more fd = record s { fds = fd ∷ s.fds }

  abbrev both_more : ShmRegion → Held
  both_more r = record { fds = r.fd ∷ s.fds; maps = r.ptr ∷ s.maps }

  remove-first : (n : ℕ) (ms : List ℕ) → remove_first n (n ∷ ms) ≡ ms
  unfolding remove_first
  remove-first n ms = ground arith

  closed_with-Owns : (fd : ℕ) (e : ShmError) → Ends (Owns s) (fd_more fd) (closed_with fd e)
  unfolding closed_with Ends
  closed_with-Owns fd e a = ap (λ ds. record s { fds = ds }) (remove-first fd s.fds)

  drop_with-Owns : (r : ShmRegion) (e : ShmError) → Ends (Owns s) (both_more r) (drop_with r e)
  unfolding drop_with Ends
  drop_with-Owns r e a b = rw (remove-first r.fd s.fds, remove-first r.ptr s.maps) refl

  on_mmap-Owns :
      (name : Name) (size fd : ℕ) (a : Result Errno ℕ)
      → Ends (Owns s) (after (SysCall.mmap fd size) a (fd_more fd)) (on_mmap name size fd a)
  unfolding on_mmap Ends
  on_mmap-Owns name size fd (ok ptr) = refl
  on_mmap-Owns name size fd (err e) = closed_with-Owns fd (ShmError.mmap_err e)

  on_truncate-Owns :
      (name : Name) (size fd : ℕ) (a : Result Errno (Unit {0}))
      → Ends (Owns s) (fd_more fd) (on_truncate name size fd a)
  unfolding on_truncate map_region Ends
  on_truncate-Owns name size fd (ok _) = on_mmap-Owns name size fd
  on_truncate-Owns name size fd (err e) = closed_with-Owns fd (ShmError.truncate e)

  on_open-Owns :
      (create_new : Bool) (name cname : Name) (size : ℕ) (a : Result Errno ℕ)
      → Ends
          (Owns s)
          (after (SysCall.shm_open create_new cname) a s)
          (on_open create_new name size a)
  unfolding on_open map_region Ends
  on_open-Owns create_new name cname size (err e) = refl
  on_open-Owns true name cname size (ok fd) = on_truncate-Owns name size fd
  on_open-Owns false name cname size (ok fd) = on_mmap-Owns name size fd

  on_cname-Owns :
      (create_new : Bool) (name : Name) (size : ℕ) (c : Result ShmError Name)
      → Ends (Owns s) s (on_cname create_new name size c)
  unfolding on_cname Ends
  on_cname-Owns create_new name size (err e) = refl
  on_cname-Owns create_new name size (ok cname) = on_open-Owns create_new name cname size

  region_at-Owns :
      (create_new : Bool) (name : Name) (size : ℕ)
      → Ends (Owns s) s (region_at create_new name size)
  unfolding region_at Ends
  region_at-Owns create_new name size =
      if-Ends (size == 0) s _ _ refl (on_cname-Owns create_new name size _)

  on_attr_init-Owns :
      (region : ShmRegion) (r : ℕ) → Ends (Owns s) (both_more region) (on_attr_init region r)
  unfolding on_attr_init on_pshared on_mutex_init Ends
  on_attr_init-Owns region r =
      if-Ends (r == 0) (both_more region) _ _
        (λ shared.
          if-Ends (shared == 0) (both_more region) _ _
            (λ made destroyed.
              if-Ends (made == 0) (both_more region) _ _ refl
                (drop_with-Owns region (ShmError.open_err made)))
            (λ destroyed. drop_with-Owns region (ShmError.open_err shared)))
        (drop_with-Owns region (ShmError.open_err r))

  create_state-Owns : (name : Name) → Ends (Owns s) s (create_state name)
  unfolding create_state create_region ◌>>=◌ or_return Ends
  create_state-Owns name =
      Ends-chain (Owns s) (Owns s) s (region_at true name shm_layout_size) _
        (region_at-Owns true name shm_layout_size) go
    where
      go :
          (h : Held) (a : Result ShmError ShmRegion)
          → Owns s h a
          → Ends
              (Owns s)
              h
              (or_return (λ region. invoke SysCall.mutexattr_init (on_attr_init region)) a)
      go h (ok r) e = rw e (λ a. on_attr_init-Owns r a)
      go h (err x) e = e

  -- Whatever the kernel answers, when the shared memory has been opened, or created where that
  -- failed, the process holds exactly the descriptor and the mapping of the region besides what it
  -- held before; and on every error exactly what it held before.
  pub open_or_create-Owns : (name : Name) → Ends (Owns s) s (open_or_create name)
  unfolding open_or_create open_state open_region or_create Ends
  open_or_create-Owns name =
      Ends-chain (Owns s) (Owns s) s (region_at false name shm_layout_size) _
        (region_at-Owns false name shm_layout_size) go
    where
      go :
          (h : Held) (a : Result ShmError ShmRegion)
          → Owns s h a
          → Ends (Owns s) h (or_create name a)
      go h (ok r) e = e
      go h (err x) e = rw e (create_state-Owns name)
