-- ===== src/Bluetooth/Connect.antt =====
-- `connect_socket` and `connect_bt_device` of src/clib/btdev.c on Linux and FreeBSD.
use mwptools.Common.{ℕ, ◌+◌, ◌-◌, ◌≡◌, Bool, true, false, List, if◌then◌else◌, arith}
use mwptools.Bluetooth.Address.{str2ba}

-- What the code shares with the system: how many descriptors are open, whether the signal of ^C is
-- blocked, and the address that `connect` was last given.
pub record Process : Type 0 where
  pub open_fds : ℕ
  pub sigint_blocked : Bool
  pub address : List ℕ

-- Whether `socket` and `connect` succeed, and the error numbers after them.
pub record Calls : Type 0 where
  pub socket : Bool
  pub socket_errno : ℕ
  pub connect : Bool
  pub connect_errno : ℕ

-- The signal is blocked before `connect` and let through after it. The result is whether `connect`
-- returns 0.
pub connect_socket : Calls → List ℕ → Process → Bool × ℕ × Process
connect_socket c address p =
    let blocked = record p { sigint_blocked = true } in
    let connected = record blocked { address = address } in
    (c.connect, c.connect_errno, record connected { sigint_blocked = false })

-- Whether a descriptor is returned, in place of -1, and `*lasterr`.
unfoldable pub connect_bt_device : Calls → List ℕ → Process → Bool × ℕ × Process
unfolding connect_socket
connect_bt_device c btaddr p =
    if c.socket
    then (let opened = record p { open_fds = p.open_fds + 1 } in
        let (connected, lasterr, p') = connect_socket c (str2ba btaddr) opened in
        if connected
        then (true, lasterr, p')
        else (false, lasterr, record p' { open_fds = p'.open_fds - 1 }))
    else (false, c.socket_errno, p)

-- One descriptor more is open if the function returns one, and none if it returns -1; it returns one
-- exactly if both calls succeed. When `connect` is reached, it is given the address that the text
-- stands for, and the signal of ^C is let through afterwards, also if it was blocked before.
pub connect_bt_device-open_fds :
    (c : Calls) (btaddr : List ℕ) (p : Process)
    → let (connected, lasterr, p') = connect_bt_device c btaddr p in
      (p'.open_fds ≡ (if connected then p.open_fds + 1 else p.open_fds))
      × (connected ≡ (if c.socket then c.connect else false))
      × (p'.address ≡ (if c.socket then str2ba btaddr else p.address))
      × (p'.sigint_blocked ≡ (if c.socket then false else p.sigint_blocked))
unfolding connect_bt_device
connect_bt_device-open_fds c btaddr p = ground arith
