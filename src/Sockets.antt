-- ===== src/Sockets.antt =====
-- The descriptors that the constructors of src/network open and the destructors close. A descriptor that is
-- open is in the list; `socket`, `bind` and `listen` are system calls, and their outcomes arguments.
use smart_sensor_network.Prelude.{
  ℕ, ◌≡◌, refl, Bool, true, false, Option, none, some, List, [], ◌∷◌, Bytes, codes, ◌==◌, ==_iff,
  if◌then◌else◌, Result, ok, throw, runtime_error,
}
use smart_sensor_network.Udp.{Receiver, new_receiver}
use smart_sensor_network.Tcp.Server.{Server, new_server}

abbrev pub Descriptors : Type 0
Descriptors = List ℕ

-- `close(fd)`.
unfoldable pub close : ℕ → Descriptors → Descriptors
close fd [] = []
close fd (d ∷ ds) = if d == fd then ds else d ∷ close fd ds

-- The destructors close a socket that is there.
abbrev pub close_if : Option ℕ → Descriptors → Descriptors
close_if none ds = ds
close_if (some fd) ds = close fd ds

pub record Sender : Type 0 where
  pub gateway_ip : Bytes
  pub gateway_port : ℕ
  pub sockfd : Option ℕ

-- `UdpSender::UdpSender`, for the descriptor that `socket` gives, if any.
unfoldable pub open_sender : Bytes → ℕ → Option ℕ → Descriptors → Result Sender × Descriptors
open_sender ip port none ds = (throw (runtime_error (codes "Failed to create UDP socket")), ds)
open_sender ip port (some fd) ds =
    (ok (record { gateway_ip = ip; gateway_port = port; sockfd = some fd }), fd ∷ ds)

-- `UdpReceiver::UdpReceiver`: a socket that cannot be bound is closed.
unfoldable pub open_receiver : Option ℕ → Bool → Descriptors → Result Receiver × Descriptors
unfolding close
open_receiver none bound ds = (new_receiver none bound, ds)
open_receiver (some fd) bound ds =
    (new_receiver (some fd) bound, if bound then fd ∷ ds else close fd (fd ∷ ds))

-- `TcpServer::TcpServer`: so is one that cannot be bound, or not listen.
unfoldable pub open_server : Option ℕ → Bool → Bool → Descriptors → Result Server × Descriptors
unfolding close
open_server none bound listening ds = (new_server none bound listening, ds)
open_server (some fd) bound listening ds = (
  new_server (some fd) bound listening,
  if bound then (if listening then fd ∷ ds else close fd (fd ∷ ds)) else close fd (fd ∷ ds),
)

abbrev pub drop_sender : Sender → Descriptors → Descriptors
drop_sender s ds = close_if s.sockfd ds

-- `~UdpReceiver`: `stop()`, and the socket is closed.
unfoldable pub drop_receiver : Receiver → Descriptors → Receiver × Descriptors
drop_receiver r ds = (record { sockfd = none; running = false }, close_if r.sockfd ds)

-- `~TcpServer`.
unfoldable pub drop_server : Server → Descriptors → Server × Descriptors
drop_server s ds = (record s { server_socket = none }, close_if s.server_socket ds)

close_last : (fd : ℕ) (ds : Descriptors) → close fd (fd ∷ ds) ≡ ds
unfolding close
close_last fd ds = let same : (fd == fd) ≡ true = (==_iff fd fd).1 refl in rw same refl

-- What the destructor leaves, where the constructor made an object; or what the constructor that threw
-- has left.
abbrev pub AtEnd {ℓ} :
    {A : Type ℓ} → (A → Descriptors → Descriptors) → Result A × Descriptors → Descriptors → Type 0
AtEnd drop (ok a, ds) before = drop a ds ≡ before
AtEnd drop (throw e, ds) before = ds ≡ before

-- No descriptor leaks: whether or not `socket`, `bind` and `listen` succeed, behind the constructor and
-- the destructor of a sender, of a receiver and of a server the open descriptors are those of before; so
-- they are behind a constructor that throws.
pub open_drop_balanced :
    (ip : Bytes) (port : ℕ) (fd : Option ℕ) (bound listening : Bool) (ds : Descriptors)
    → AtEnd drop_sender (open_sender ip port fd ds) ds
      × AtEnd (λ r d. (drop_receiver r d).1) (open_receiver fd bound ds) ds
      × AtEnd (λ s d. (drop_server s d).1) (open_server fd bound listening ds) ds
unfolding open_sender open_receiver open_server drop_receiver drop_server new_receiver new_server
open_drop_balanced ip port none bound listening ds = (refl, refl, refl)
open_drop_balanced ip port (some fd) true true ds =
    (close_last fd ds, close_last fd ds, close_last fd ds)
open_drop_balanced ip port (some fd) true false ds =
    (close_last fd ds, close_last fd ds, close_last fd ds)
open_drop_balanced ip port (some fd) false listening ds =
    (close_last fd ds, close_last fd ds, close_last fd ds)
