-- ===== src/Descriptors.antt =====
-- The file descriptors of a run: app/src/main/cpp/fd_state.h and socket.c, file.c, pipe.c and epoll.c, and what run_system_call.c does to them before and after a system call.
pub mod Table
use qo_smos.Prelude.{
  ℕ, zero, suc, ◌+◌, ◌%◌, ◌^◌, Bool, true, false, not, ◌&&◌, ◌||◌, List, [], ◌∷◌, Option, none,
  some, ltb, ◌==◌, if◌then◌else◌, length,
}
use qo_smos.Prelude.Int.{ℤ, pos, negsuc, ltb_ℤ, eq_ℤ, is_zero_ℤ, minus_one}
use qo_smos.Socket.{
  Phase, socket_init, socket_created, passive_listening, passive_synack_sent, passive_synack_acked,
  active_connecting, Endpoint, SocketState, is_equal_ip,
}
use qo_smos.Socket.Creation.{no_endpoint, no_state}
use qo_smos.Address.{
  Family, af_inet, af_inet6, IpAddress, Sockaddr, ip_to_sockaddr, ip_from_sockaddr,
  ipv6_map_to_ipv4, swap_port,
}
use qo_smos.Script.Outcomes.{
  Fallible, ok, err, abort, ◌>>=◌, unable_to_find_fd, duplicate_fd, duplicate_live_fd,
  invalid_socket_fd, invalid_live_fd, unable_to_find_socket, no_socket_for_accept, socket_not_new,
}

pub data FdType : Type 0 where
  fd_socket fd_file fd_pipe fd_epoll : FdType

abbrev pub is_socket : FdType → Bool
is_socket fd_socket = true
is_socket type = false

abbrev pub is_created : Phase → Bool
is_created socket_created = true
is_created phase = false

-- A child socket that accept() can return; the first state is that of TCP Fast Open.
abbrev pub is_synack : Phase → Bool
is_synack passive_synack_sent = true
is_synack passive_synack_acked = true
is_synack phase = false

-- AF_INET and AF_INET6 of Linux
abbrev pub family_number : Family → ℤ
family_number af_inet = pos 2
family_number af_inet6 = pos 10

-- An IPv4-mapped address as IPv4.
abbrev pub unmapped : IpAddress → IpAddress
unmapped ip = elim ip.family [
  | af_inet ↦ ip
  | af_inet6 ↦ elim (ipv6_map_to_ipv4 ip) [ none ↦ ip | some ipv4 ↦ ipv4 ]
]

-- The fields of `struct socket` that system calls use. The ports of its endpoints are in host order.
pub record SocketFields : Type 0 where
  pub state : Phase
  pub address_family : ℤ
  pub type : ℤ
  pub protocol : ℤ
  pub script : SocketState
  pub live : SocketState

-- `struct fd_state`, with the fields of the object around it, which count for a socket only.
pub record FdState : Type 0 where
  pub type : FdType
  pub script_fd : ℤ
  pub live_fd : ℤ
  pub is_closed : Bool
  pub socket : SocketFields

pub record FdConfig : Type 0 where
  pub socket_domain : ℤ
  pub live_bind_ip : IpAddress
  pub live_bind_port : ℕ
  pub live_connect_ip : IpAddress
  pub live_connect_port : ℕ
  pub live_local_ip : List ℕ
  pub live_remote_ip : List ℕ
  pub is_wire_client : Bool

-- The list of descriptors, the newest first. No descriptor leaves it during a run, so a pointer to one is
-- the number of those behind it.
pub record Fds : Type 0 where
  pub config : FdConfig
  pub fds : List FdState
  pub socket_under_test : Option ℕ

-- `calloc`
abbrev pub new_socket : SocketFields
new_socket = record {
  state = socket_init;
  address_family = pos 0;
  type = pos 0;
  protocol = pos 0;
  script = no_state;
  live = no_state;
}

abbrev pub new_fd : FdType → ℤ → ℤ → SocketFields → FdState
new_fd type script_fd live_fd socket = record {
  type = type;
  script_fd = script_fd;
  live_fd = live_fd;
  is_closed = false;
  socket = socket;
}

-- Also `file_new`, `pipe_new`, `epoll_new` and `socket_new`, with the descriptors set behind each.
unfoldable pub state_add_fd : Fds → FdState → Fds
state_add_fd state fd = record state { fds = fd ∷ state.fds }

abbrev pub is_open_script_fd : ℤ → FdState → Bool
is_open_script_fd script_fd fd = not fd.is_closed && eq_ℤ fd.script_fd script_fd

abbrev pub is_open_live_fd : ℤ → FdState → Bool
is_open_live_fd live_fd fd = not fd.is_closed && eq_ℤ fd.live_fd live_fd

-- The assert on a descriptor that is found.
abbrev pub checked : FdState → Fallible (Option FdState)
checked fd = if ltb_ℤ fd.live_fd (pos 0) || ltb_ℤ fd.script_fd (pos 0) then abort else ok (some fd)

unfoldable pub find_by_script_fd : List FdState → ℤ → Fallible (Option FdState)
find_by_script_fd [] script_fd = ok none
find_by_script_fd (fd ∷ fds) script_fd =
    if is_open_script_fd script_fd fd then checked fd else find_by_script_fd fds script_fd

unfoldable pub find_by_live_fd : List FdState → ℤ → Fallible (Option FdState)
find_by_live_fd [] live_fd = ok none
find_by_live_fd (fd ∷ fds) live_fd =
    if is_open_live_fd live_fd fd then checked fd else find_by_live_fd fds live_fd

unfoldable pub to_live_fd : Fds → ℤ → Fallible ℤ
unfolding find_by_script_fd
to_live_fd state script_fd = do
  found ← find_by_script_fd state.fds script_fd
  elim found [ none ↦ err unable_to_find_fd | some fd ↦ ok fd.live_fd ]

unfoldable pub check_duplicate_fd : Fds → ℤ → ℤ → Fallible (Unit {0})
unfolding find_by_script_fd find_by_live_fd
check_duplicate_fd state script_fd live_fd = do
  by_script ← find_by_script_fd state.fds script_fd
  elim by_script [
    | some fd ↦ err duplicate_fd
    | none ↦ do
      by_live ← find_by_live_fd state.fds live_fd
      elim by_live [ some fd ↦ err duplicate_live_fd | none ↦ ok tt ]
  ]

-- `run_syscall_open` and `run_syscall_epoll_create`, which differ in the type.
unfoldable pub run_syscall_new : FdType → Fds → ℤ → ℤ → Fallible Fds
unfolding check_duplicate_fd state_add_fd
run_syscall_new type state script_fd live_fd = do
  checked ← check_duplicate_fd state script_fd live_fd
  ok (state_add_fd state (new_fd type script_fd live_fd new_socket))

unfoldable pub run_syscall_socket : Fds → ℤ → ℤ → ℤ → ℤ → ℤ → Fallible Fds
unfolding check_duplicate_fd state_add_fd
run_syscall_socket state address_family type protocol script_fd live_fd =
    if ltb_ℤ script_fd (pos 0)
    then err invalid_socket_fd
    else if ltb_ℤ live_fd (pos 0)
    then err invalid_live_fd
    else do
      checked ← check_duplicate_fd state script_fd live_fd
      let socket = record new_socket {
        state = socket_created;
        address_family = address_family;
        type = type;
        protocol = protocol;
      }
      let added = state_add_fd state (new_fd fd_socket script_fd live_fd socket)
      ok (record added { socket_under_test = some (length state.fds) })

-- The first open descriptor of the script's number, changed.
unfoldable pub update_fd : (FdState → FdState) → ℤ → List FdState → List FdState
update_fd change script_fd [] = []
update_fd change script_fd (fd ∷ fds) =
    if is_open_script_fd script_fd fd then change fd ∷ fds else fd ∷ update_fd change script_fd fds

abbrev pub mark_closed : FdState → FdState
mark_closed fd = record fd { is_closed = true }

unfoldable pub run_syscall_close : Fds → ℤ → ℤ → Fallible Fds
unfolding find_by_script_fd update_fd
run_syscall_close state script_fd live_fd = do
  found ← find_by_script_fd state.fds script_fd
  elim found [
    | none ↦ err unable_to_find_fd
    | some fd ↦
        if eq_ℤ fd.live_fd live_fd
        then ok (record state { fds = update_fd mark_closed script_fd state.fds })
        else err unable_to_find_fd
  ]

unfoldable pub run_syscall_pipe : Fds → ℤ × ℤ → ℤ × ℤ → Fallible Fds
unfolding check_duplicate_fd state_add_fd
run_syscall_pipe state (script_0, script_1) (live_0, live_1) = do
  first ← check_duplicate_fd state script_0 live_0
  second ← check_duplicate_fd state script_1 live_1
  let added = state_add_fd state (new_fd fd_pipe script_0 live_0 new_socket)
  ok (state_add_fd added (new_fd fd_pipe script_1 live_1 new_socket))

-- `fd_to_socket(find_by_script_fd(…))`, which is null for another type of descriptor.
unfoldable pub find_socket_by_fd : Fds → ℤ → Fallible (Option FdState)
unfolding find_by_script_fd
find_socket_by_fd state script_fd = do
  found ← find_by_script_fd state.fds script_fd
  elim found [ none ↦ ok none | some fd ↦ ok (if is_socket fd.type then some fd else none) ]

abbrev pub with_state : Phase → FdState → FdState
with_state phase fd = record fd { socket = record fd.socket { state = phase } }

abbrev pub changed : (FdState → FdState) → ℤ → Fds → Fds
changed change script_fd state = record state { fds = update_fd change script_fd state.fds }

unfoldable pub run_syscall_bind : Fds → Sockaddr
unfolding ip_to_sockaddr
run_syscall_bind state = ip_to_sockaddr state.config.live_bind_ip state.config.live_bind_port

unfoldable pub run_syscall_listen : Fds → ℤ → ℤ → Fallible Fds
unfolding find_socket_by_fd update_fd
run_syscall_listen state script_fd live_fd = do
  found ← find_socket_by_fd state script_fd
  elim found [
    | none ↦ err unable_to_find_socket
    | some fd ↦
        if eq_ℤ fd.live_fd live_fd
        then ok (changed (with_state passive_listening) script_fd state)
        else abort
  ]

abbrev pub is_accepting : FdState → Bool
is_accepting fd = is_socket fd.type && is_synack fd.socket.state

-- The loop that looks for a socket whose handshake the script has shown.
unfoldable pub accept_loop : IpAddress → ℕ → ℤ → ℤ → List FdState → Fallible (Option (List FdState))
unfolding is_equal_ip
accept_loop ip port script_fd live_fd [] = ok none
accept_loop ip port script_fd live_fd (fd ∷ fds) =
    if is_accepting fd
    then if is_equal_ip fd.socket.live.remote.ip ip.bytes && (fd.socket.live.remote.port == port)
      then ok (some (record fd { script_fd = script_fd; live_fd = live_fd } ∷ fds))
      else abort
    else do
      found ← accept_loop ip port script_fd live_fd fds
      elim found [ none ↦ ok none | some rest ↦ ok (some (fd ∷ rest)) ]

-- The child socket of a wire client. Its remote port is stored as it was parsed, in host order.
unfoldable pub accepted_socket : FdConfig → IpAddress → ℕ → SocketFields
unfolding swap_port
accepted_socket config ip port =
    let live = record no_state {
      remote = record { ip = ip.bytes; port = swap_port port };
      local = record { ip = config.live_local_ip; port = config.live_bind_port };
    } in
    record new_socket { address_family = family_number ip.family; live = live }

unfoldable pub run_syscall_accept : Fds → ℤ → ℤ → Sockaddr → Fallible Fds
unfolding ip_from_sockaddr ipv6_map_to_ipv4 accept_loop accepted_socket state_add_fd
run_syscall_accept state script_fd live_fd live_addr = elim (ip_from_sockaddr live_addr) [
  | none ↦ abort
  | some (parsed, port) ↦ do
    let ip = unmapped parsed
    found ← accept_loop ip port script_fd live_fd state.fds
    elim found [
      | some fds ↦ ok (record state { fds = fds })
      | none ↦
          if state.config.is_wire_client
          then ok
              (record (state_add_fd state
                (new_fd fd_socket script_fd live_fd (accepted_socket state.config ip port))) {
                  socket_under_test = some (length state.fds);
                })
          else err no_socket_for_accept
    ]
]

-- The address of connect() and sendto(): of the configuration, or of zeros with the given family.
pub data ConnectAddress : Type 0 where
  configured : Sockaddr → ConnectAddress
  only_family : ℤ → ConnectAddress

-- The family is a `sa_family_t` of 16 bits, and AF_UNSPEC is 0.
unfoldable pub is_unspec : ConnectAddress → Bool
is_unspec (configured address) = false
is_unspec (only_family (pos n)) = n % 2 ^ 16 == 0
is_unspec (only_family (negsuc n)) = (n + 1) % 2 ^ 16 == 0

unfoldable pub connect_address : FdConfig → ℤ → ConnectAddress
unfolding ip_to_sockaddr
connect_address config sa_family =
    if eq_ℤ sa_family minus_one
    then configured (ip_to_sockaddr config.live_connect_ip config.live_connect_port)
    else only_family sa_family

abbrev pub connecting : FdConfig → FdState → FdState
connecting config fd =
    let script = record fd.socket.script { remote = no_endpoint; local = no_endpoint } in
    record fd {
      socket = record fd.socket {
        state = active_connecting;
        script = script;
        live = record fd.socket.live {
          remote = record { ip = config.live_remote_ip; port = config.live_connect_port };
        };
      };
    }

unfoldable pub run_syscall_connect : Fds → ℤ → Bool → ℤ → Fallible (Fds × ConnectAddress)
unfolding connect_address find_socket_by_fd is_unspec update_fd
run_syscall_connect state script_fd must_be_new_socket sa_family = do
  let address = connect_address state.config sa_family
  found ← find_socket_by_fd state script_fd
  elim found [
    | none ↦ abort
    | some fd ↦
        if is_unspec address
        then ok (changed (with_state socket_created) script_fd state, address)
        else if is_created fd.socket.state
        then ok (changed (connecting state.config) script_fd state, address)
        else if must_be_new_socket
        then err socket_not_new
        else ok (state, address)
  ]
