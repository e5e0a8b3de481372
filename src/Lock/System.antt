-- ===== src/Lock/System.antt =====
-- What the lock of uaclient/lock.py promises to many processes.
use ubuntu_advantage_client.Lock.World.{World}
