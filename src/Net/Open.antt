-- ===== src/Net/Open.antt =====
-- The natives of src/api/net.cpp that open sockets or ask the gate: tcp_listen, tcp_connect and
-- those of UDP. Each takes a record of what the system and the gate answer on the way.
use brokit.Prelude.{
  ℕ, suc, Bool, true, false, not, ◌&&◌, ◌||◌, List, [], ◌∷◌, ◌++◌, Option, none, some, Bytes, codes,
  is_empty, ◌==◌, if◌then◌else◌,
}
use brokit.Access.{socket_url}
use brokit.Net.{
  Os, connected, tcp_listener, tcp_conn, udp, NetHandle, new_handle, push, Effect, closes_fd,
  sets_broadcast, sends_to, fail_handle, hold_net, release_held, err_would_block, err_in_progress,
  find_handle, Net,
}
use brokit.Net.Calls.{
  boolean, number, null, info, type_error, error, access_error, Outcome, unchanged, stored, is_udp,
  with_handle,
}

-- An address and a port, as getnameinfo prints them; `none` where the call failed.
abbrev pub Endpoint : Type 0
Endpoint = Option (Bytes × ℕ)

-- cacheLocalInfo and cacheRemoteInfo
unfoldable pub cache_local : Endpoint → NetHandle → NetHandle
cache_local none h = h
cache_local (some (address, port)) h = record h { local_address = address; local_port = port }

unfoldable pub cache_remote : Endpoint → NetHandle → NetHandle
cache_remote none h = h
cache_remote (some (address, port)) h = record h { remote_address = address; remote_port = port }

-- What a call that opens a socket is answered, in the order in which it asks.
pub record Answers : Type 0 where
  -- checkNetAccess; empty where the gate allows
  pub refusal : Bytes
  -- the message of a failed getaddrinfo
  pub resolve_error : Option Bytes
  -- ::socket
  pub socket : Option ℕ
  -- ::bind and ::listen, or the datagram of ::sendto
  pub accepted : Bool
  pub connected_now : Bool
  pub errno : ℕ
  pub local : Endpoint
  pub remote : Endpoint
  -- holdGatedAccess
  pub ledger_id : ℕ

-- `g_handles[h->id] = h` for the fresh id that the handle was given.
unfoldable pub insert_new : Net → NetHandle × List Effect → Outcome
insert_new n (h, out) = record {
  net = record { handles = n.handles ++ h ∷ []; next_id = suc n.next_id };
  effects = out;
  reply = number h.id;
}

-- The URL that a bound socket is held under: the port it got, where any was asked for.
unfoldable pub bound_url : Os → (scheme host : Bytes) → ℕ → ℕ → Bytes
bound_url os scheme host port local_port =
    if port == 0 && not (local_port == 0)
    then socket_url scheme host (os.to_string local_port)
    else socket_url scheme host (os.to_string port)

-- holdNet for a handle that is not closed.
unfoldable pub hold_open : Bytes → ℕ → NetHandle × List Effect → NetHandle × List Effect
hold_open url ledger_id (h, out) =
    if h.closed then (h, out) else (let (h', more) = hold_net h url ledger_id in (h', out ++ more))

module _ (os : Os) where
  open os use {strerror, to_string}

  -- js_net_tcp_listen
  unfoldable pub tcp_listen : (host : Bytes) (port : ℕ) → Answers → Net → Outcome
  tcp_listen host port a n =
      if not (is_empty a.refusal)
      then unchanged n (access_error a.refusal)
      else elim a.resolve_error [
        | some text ↦ unchanged n (error (codes "listen: " ++ text))
        | none ↦ elim a.socket [
          | none ↦ unchanged n (error (codes "listen: socket: " ++ strerror a.errno))
          | some fd ↦
              if not a.accepted
              then record {
                net = n;
                effects = closes_fd fd ∷ [];
                reply = error (
                    codes "listen "
                    ++ (host ++ b':' ∷ (to_string port ++ (codes ": " ++ strerror a.errno))));
              }
              else (let h = cache_local a.local (new_handle tcp_listener n.next_id fd) in
                  insert_new n (
                    hold_net h (bound_url os (codes "tcp-listen") host port h.local_port)
                      a.ledger_id))
        ]
      ]

  -- What ::connect leaves of a new connection.
  unfoldable pub after_connect : Answers → NetHandle → NetHandle × List Effect
  after_connect a h =
      if a.connected_now
      then (push (cache_remote a.remote (cache_local a.local h)) connected, [])
      else if err_in_progress os a.errno
      then (record h { connecting = true }, [])
      else fail_handle h (codes "connect failed: " ++ strerror a.errno)

  -- js_net_tcp_connect
  unfoldable pub tcp_connect : (host : Bytes) (port : ℕ) → Answers → Net → Outcome
  tcp_connect host port a n =
      let url = socket_url (codes "tcp") host (to_string port) in
      if not (is_empty a.refusal)
      then unchanged n (access_error a.refusal)
      else elim a.resolve_error [
        | some text ↦
            unchanged n (
              error (codes "connect " ++ (host ++ b':' ∷ (to_string port ++ (codes ": " ++ text)))))
        | none ↦ elim a.socket [
          | none ↦ unchanged n (error (codes "connect: socket: " ++ strerror a.errno))
          | some fd ↦
              insert_new n
                (hold_open url a.ledger_id (after_connect a (new_handle tcp_conn n.next_id fd)))
        ]
      ]

  -- js_net_udp_open
  unfoldable pub udp_open : (ipv6 : Bool) → Answers → Net → Outcome
  udp_open ipv6 a n = elim a.socket [
    | none ↦ unchanged n (error (codes "udp_open: " ++ strerror a.errno))
    | some fd ↦
        let h : NetHandle = new_handle udp n.next_id fd in
        insert_new n (record h { ipv6 = ipv6 }, [])
  ]

  -- js_net_udp_bind, past the tests on the handle. An earlier grant is released first.
  unfoldable pub bind_handle :
      (host : Bytes) (port : ℕ) → Answers → NetHandle → NetHandle × List Effect
  bind_handle host port a h =
      let bound = cache_local a.local h in
      let free : NetHandle = record bound { held = 0 } in
      let (h', out) =
        hold_net free (bound_url os (codes "udp-bind") host port bound.local_port) a.ledger_id in
      (h', release_held bound.held ++ out)

  unfoldable pub udp_bind : (id : ℕ) (host : Bytes) (port : ℕ) → Answers → Net → Outcome
  udp_bind id host port a n =
      with_handle n id (λ h. not (is_udp h.kind) || h.closed)
        (λ h.
          if not (is_empty a.refusal)
          then unchanged n (access_error a.refusal)
          else elim a.resolve_error [
            | some text ↦ unchanged n (error (codes "udp bind: " ++ text))
            | none ↦
                if not a.accepted
                then unchanged n (
                    error (
                      codes "udp bind "
                      ++ (host ++ b':' ∷ (to_string port ++ (codes ": " ++ strerror a.errno)))))
                else stored n (bind_handle host port a h) (boolean true)
          ])

  -- js_net_udp_send
  unfoldable pub udp_send :
      (id : ℕ) (payload : Option Bytes) (host : Bytes) (port : ℕ) → Answers → Net → Outcome
  udp_send id payload host port a n =
      with_handle n id (λ h. not (is_udp h.kind) || h.closed)
        (λ h. elim payload [
          | none ↦
              unchanged n
                (type_error (codes "send: data must be a string, ArrayBuffer or TypedArray"))
          | some bytes ↦
              if not (is_empty a.refusal)
              then unchanged n (access_error a.refusal)
              else elim a.resolve_error [
                | some text ↦
                    stored n (fail_handle h (codes "udp send resolve: " ++ text)) (boolean false)
                | none ↦
                    if a.accepted
                    then stored n (h, sends_to h.fd bytes host port ∷ []) (boolean true)
                    else if err_would_block os a.errno
                    then unchanged n (boolean false)
                    else stored n (fail_handle h (codes "udp send: " ++ strerror a.errno))
                        (boolean false)
              ]
        ])

-- js_net_set_broadcast
unfoldable pub set_broadcast : (id : ℕ) (on : Bool) → Answers → Net → Outcome
set_broadcast id on a n =
    with_handle n id (λ h. not (is_udp h.kind) || h.closed)
      (λ h. stored n (h, sets_broadcast h.fd on ∷ []) (boolean a.accepted))

-- js_net_info
unfoldable pub info_call : (id : ℕ) → Answers → Net → Outcome
info_call id a n = elim (find_handle id n.handles) [
  | none ↦ unchanged n null
  | some h ↦
      let h' = if not h.closed && is_empty h.local_address then cache_local a.local h else h in
      stored n (h', []) (info h'.local_address h'.local_port h'.remote_address h'.remote_port)
]
