-- ===== src/Fuse/Fs/Contained/Data.antt =====
-- The handlers that read, write, lock and list (src/fuse/fs.rs): what is written through a contained
-- handle is written in the object store.
use coding_agent_sandbox.Common.{
  ℕ, zero, suc, ◌≡◌, refl, Bool, true, Option, none, some, [], ◌∷◌, arith,
}
use coding_agent_sandbox.FilePath.{FilePath, path_eq}
use coding_agent_sandbox.Files.{Bytes}
use coding_agent_sandbox.Host.{HostCall, Value, ℤ, writes, touches}
use coding_agent_sandbox.Prog.{Error, Result, ok, err}
use coding_agent_sandbox.Prog.Safe
use coding_agent_sandbox.Prog.Safe.{Zone, inside, SafeTry, Any}
use coding_agent_sandbox.Fuse.Readdir.{ReaddirError, decide_readdir, validate_readdir_decision}
use coding_agent_sandbox.Fuse.OpenFile.{OpenFile, file_of}
use coding_agent_sandbox.Fuse.Executor.Attributes.{
  writes-contained, SafeTry-read_at, SafeTry-copy_from, SafeTry-write_at, SafeTry-flush_to_daemon,
  SafeTry-load_readdir_state,
}
use coding_agent_sandbox.Fuse.Handler.Contained
use coding_agent_sandbox.Fuse.Handler.Contained.{Contained, ContainedOption, SafeHandler}
use coding_agent_sandbox.Fuse.Fs.{Mount, Reply}
use coding_agent_sandbox.Fuse.Fs.Data.{read, write, copy_file_range, flush, fsync, seek_from, lseek}
use coding_agent_sandbox.Fuse.Fs.Locks.{
  fail_last, reply_value, on_descriptor, fallocate, flock_of, setlk, getlk,
}
use coding_agent_sandbox.Fuse.Fs.Directory.{
  Items, number_rows, check_decision, parent_or_root, opendir, readdir,
}
use coding_agent_sandbox.Fuse.Fs.Contained.{
  SafeHandler-try, SafeHandler-done, SafeHandler-get_path, SafeHandler-get_file,
  SafeHandler-connect,
}

module _ (zone : Zone) where
  pub SafeHandler-read : (ino fh offset size : ℕ) → SafeHandler zone Any (read ino fh offset size)
  unfolding read
  SafeHandler-read ino fh offset size =
      Contained.SafeHandler->> zone Any _ _ (SafeHandler-connect zone) (
        Contained.SafeHandler-after zone Any _ _ (SafeHandler-get_path zone ino) (λ p.
          Contained.SafeHandler->>= zone (Contained zone) Any _ _ (SafeHandler-get_file zone fh)
            (λ f c.
              Contained.SafeHandler-after zone Any _ _
                (SafeHandler-try zone _ (SafeTry-read_at zone f offset size))
                (λ bytes. SafeHandler-done zone _))))

  pub SafeHandler-write :
      (ino fh offset : ℕ) (bytes : Bytes) → SafeHandler zone Any (write ino fh offset bytes)
  unfolding write
  SafeHandler-write ino fh offset bytes =
      Contained.SafeHandler->> zone Any _ _ (SafeHandler-connect zone) (
        Contained.SafeHandler-after zone Any _ _ (SafeHandler-get_path zone ino) (λ p.
          Contained.SafeHandler->>= zone (Contained zone) Any _ _ (SafeHandler-get_file zone fh)
            (λ f c.
              Contained.SafeHandler-after zone Any _ _
                (SafeHandler-try zone _ (SafeTry-write_at zone f offset bytes c))
                (λ n. SafeHandler-done zone _))))

  pub SafeHandler-copy_file_range :
      (i fh offset j gh to len : ℕ) → SafeHandler zone Any (copy_file_range i fh offset j gh to len)
  unfolding copy_file_range
  SafeHandler-copy_file_range i fh offset j gh to len =
      Contained.SafeHandler-after zone Any _ _ (SafeHandler-get_path zone i) (λ p.
        Contained.SafeHandler-after zone Any _ _ (SafeHandler-get_path zone j) (λ p'.
          Contained.SafeHandler->> zone Any _ _ (SafeHandler-connect zone) (
            Contained.SafeHandler->>= zone (Contained zone) Any _ _ (SafeHandler-get_file zone fh)
              (λ f c.
                Contained.SafeHandler-after zone Any _ _
                  (SafeHandler-try zone _ (SafeTry-copy_from zone f offset len))
                  (λ bytes.
                    Contained.SafeHandler->>= zone (Contained zone) Any _ _
                      (SafeHandler-get_file zone gh)
                      (λ g c'.
                        Contained.SafeHandler-after zone Any _ _
                          (SafeHandler-try zone _ (SafeTry-write_at zone g to bytes c'))
                          (λ n. SafeHandler-done zone _)))))))

  pub SafeHandler-flush : (fh : ℕ) → SafeHandler zone Any (flush fh)
  unfolding flush
  SafeHandler-flush fh = Contained.SafeHandler->> zone Any _ _ (SafeHandler-connect zone) (
      Contained.SafeHandler->>= zone (Contained zone) Any _ _ (SafeHandler-get_file zone fh) (λ f c.
        Contained.SafeHandler->> zone Any _ _
          (SafeHandler-try zone _ (SafeTry-flush_to_daemon zone f)) (SafeHandler-done zone _)))

  pub SafeHandler-fsync : (fh : ℕ) → SafeHandler zone Any (fsync fh)
  unfolding fsync
  SafeHandler-fsync fh = Contained.SafeHandler->> zone Any _ _ (SafeHandler-connect zone) (
      Contained.SafeHandler->>= zone (Contained zone) Any _ _ (SafeHandler-get_file zone fh) (λ f c.
        Contained.SafeHandler->> zone Any _ _
          (SafeHandler-try zone _ (SafeTry-flush_to_daemon zone f)) (SafeHandler-done zone _)))

  SafeHandler-seek_from : (offset : ℤ) (whence : ℕ) → SafeHandler zone Any (seek_from offset whence)
  unfolding seek_from
  SafeHandler-seek_from offset zero = SafeHandler-done zone _
  SafeHandler-seek_from offset (suc zero) = SafeHandler-done zone _
  SafeHandler-seek_from offset (suc (suc zero)) = SafeHandler-done zone _
  SafeHandler-seek_from offset (suc (suc (suc n))) = Contained.SafeHandler-fail zone Any _

  pub SafeHandler-lseek :
      (fh : ℕ) (offset : ℤ) (whence : ℕ) → SafeHandler zone Any (lseek fh offset whence)
  unfolding lseek
  SafeHandler-lseek fh offset whence =
      Contained.SafeHandler-after zone Any _ _ (SafeHandler-seek_from offset whence) (λ place.
        Contained.SafeHandler->>= zone (Contained zone) Any _ _ (SafeHandler-get_file zone fh)
          (λ f c.
            Contained.SafeHandler-after zone Any _ _
              (SafeHandler-try zone _ (
                Safe.SafeTry-call_pure zone (HostCall.seek (file_of f) place)
                  (λ q. unfold touches in refl)))
              (λ n. SafeHandler-done zone _)))

  SafeHandler-fail_last : SafeHandler zone Any fail_last
  unfolding fail_last
  SafeHandler-fail_last =
      Contained.SafeHandler-after zone Any _ _
        (SafeHandler-try zone _
          (Safe.SafeTry-call_pure zone HostCall.last_errno (λ q. unfold touches in refl)))
        (λ n. Contained.SafeHandler-fail zone Any n)

  SafeHandler-reply_value :
      {A : Type 0} (make : A → Reply) (r : Result Error A)
      → SafeHandler zone Any (reply_value make r)
  unfolding reply_value
  SafeHandler-reply_value make (ok v) = SafeHandler-done zone _
  SafeHandler-reply_value make (err e) = SafeHandler-fail_last

  -- A call with a contained descriptor that touches what the descriptor may write at most.
  SafeHandler-on_descriptor :
      (o : Option OpenFile) (h : OpenFile → HostCall) (make : (f : OpenFile) → Value (h f) → Reply)
      → ContainedOption zone o
      → ((f : OpenFile) (q : FilePath) → touches (h f) q ≡ true → writes (file_of f) q ≡ true)
      → SafeHandler zone Any (on_descriptor o h make)
  unfolding on_descriptor ContainedOption
  SafeHandler-on_descriptor none h make c t = SafeHandler-fail_last
  SafeHandler-on_descriptor (some f) h make c t =
      Contained.SafeHandler-after zone Any _ _
        (SafeHandler-try zone _ (
          Safe.SafeTry-attempt-Any zone _ (
            Safe.SafeTry-call zone (h f)
              (λ q touched. writes-contained zone (file_of f) c q (t f q touched)))))
        (SafeHandler-reply_value (make f))

  pub SafeHandler-fallocate :
      (fh offset len mode : ℕ) → SafeHandler zone Any (fallocate fh offset len mode)
  unfolding fallocate
  SafeHandler-fallocate fh offset len mode =
      Contained.SafeHandler->>= zone (ContainedOption zone) Any _ _
        (Contained.SafeHandler-open_file zone ℕ fh)
        (λ o c.
          SafeHandler-on_descriptor o (λ f. HostCall.fallocate (file_of f) mode offset len) _ c
            (λ f q t. unfold touches in t))

  pub SafeHandler-setlk :
      (fh start end type : ℕ) (sleep : Bool) → SafeHandler zone Any (setlk fh start end type sleep)
  unfolding setlk
  SafeHandler-setlk fh start end type sleep =
      Contained.SafeHandler->>= zone (ContainedOption zone) Any _ _
        (Contained.SafeHandler-open_file zone ℕ fh)
        (λ o c.
          SafeHandler-on_descriptor o
            (λ f. HostCall.set_lock (file_of f) (flock_of start end type 0) sleep) _ c
            (λ f q t. unfold touches in ground arith))

  pub SafeHandler-getlk :
      (fh start end type pid : ℕ) → SafeHandler zone Any (getlk fh start end type pid)
  unfolding getlk
  SafeHandler-getlk fh start end type pid =
      Contained.SafeHandler->>= zone (ContainedOption zone) Any _ _
        (Contained.SafeHandler-open_file zone ℕ fh)
        (λ o c.
          SafeHandler-on_descriptor o
            (λ f. HostCall.get_lock (file_of f) (flock_of start end type pid)) _ c
            (λ f q t. unfold touches in ground arith))

  pub SafeHandler-opendir : (ino : ℕ) → SafeHandler zone Any (opendir ino)
  unfolding opendir
  SafeHandler-opendir ino =
      Contained.SafeHandler-after zone Any _ _ (SafeHandler-get_path zone ino)
        (λ p. SafeHandler-done zone _)

  SafeHandler-number_rows : (i : ℕ) (items : Items) → SafeHandler zone Any (number_rows i items)
  unfolding number_rows
  SafeHandler-number_rows i [] = SafeHandler-done zone _
  SafeHandler-number_rows i ((name, (kind, full)) ∷ items) =
      Contained.SafeHandler-after zone Any _ _ (Contained.SafeHandler-get_or_insert zone ℕ full)
        (λ ino.
          Contained.SafeHandler-after zone Any _ _ (SafeHandler-number_rows (suc i) items)
            (λ rest. SafeHandler-done zone _))

  SafeHandler-check_decision : (e : Option ReaddirError) → SafeHandler zone Any (check_decision e)
  unfolding check_decision
  SafeHandler-check_decision none = SafeHandler-done zone tt
  SafeHandler-check_decision (some e) = Contained.SafeHandler-fail zone Any _

  pub SafeHandler-readdir :
      (M : Mount) (ino offset : ℕ) → SafeHandler zone Any (readdir M ino offset)
  unfolding readdir
  SafeHandler-readdir M ino offset =
      Contained.SafeHandler-after zone Any _ _ (SafeHandler-get_path zone ino) (λ p.
        Contained.SafeHandler->> zone Any _ _ (SafeHandler-connect zone) (
          Contained.SafeHandler-after zone Any _ _
            (SafeHandler-try zone _ (SafeTry-load_readdir_state zone M.policy p))
            (λ s.
              Contained.SafeHandler->> zone Any _ _
                (SafeHandler-check_decision (validate_readdir_decision s (decide_readdir s)))
                (Contained.SafeHandler-after zone Any _ _
                  (Contained.SafeHandler-get_or_insert zone ℕ (parent_or_root p))
                  (λ pino.
                    Contained.SafeHandler-after zone Any _ _ (SafeHandler-number_rows 3 _)
                      (λ rows. SafeHandler-done zone _))))))
