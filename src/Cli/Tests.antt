-- ===== src/Cli/Tests.antt =====
-- A detach on a machine whose lock is free.
use ubuntu_advantage_client.Base.{ℕ, ◌≡◌, refl, true, false, none, some, [], ◌==◌}
use ubuntu_advantage_client.Exception.{err, other_error}
use ubuntu_advantage_client.Json.{end}
use ubuntu_advantage_client.Machine.{Machine, raise}
use ubuntu_advantage_client.Lock.{Process, enter}
use ubuntu_advantage_client.Cli.{Args, LockAccess, guarded}
use ubuntu_advantage_client.Cli.Released.{LawfulAccess, Free, guarded-Free}

-- The state of the host is the process with its lock.
abbrev access : LockAccess Process
access = record {
  running = λ m pid. pid == 7;
  process_of = λ m. m.host;
  with_process = λ p m. record m { host = p };
}

access-LawfulAccess : LawfulAccess access
access-LawfulAccess = record { written = λ p m. refl }

abbrev machine : Machine Process
machine = record {
  host = record {
    pid = 7;
    is_root = true;
    clear_lock_file = false;
    dir = record { lock_file = none; in_progress = [] };
  };
  attached = true;
  config = end;
  entitlements = end;
  cache = end;
  answers = [];
  shown = [];
}

abbrev args : Args
args = record { format = "json"; assume_yes = true }

raises :
    (guarded access (some args) "pro detach" (raise {A = ℕ} (other_error "EOFError")) machine).0
    ≡ err (other_error "EOFError")
unfolding guarded enter
raises = refl

guarded-Free_example :
    Free access
      (guarded access (some args) "pro detach" (raise {A = ℕ} (other_error "EOFError")) machine).1
guarded-Free_example =
    guarded-Free access access-LawfulAccess (some args) "pro detach"
      (raise (other_error "EOFError")) machine refl
