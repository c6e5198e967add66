-- ===== src/Logger.antt =====
-- src/monitor/Logger.cpp: the queue and the history of the logger, as its mutex protects them.
-- `stamp` is what `currentTimeString()` returns in the call.
pub mod History
pub mod Shutdown
use smart_sensor_network.Prelude.{
  ℕ, List, [], ◌∷◌, ◌++◌, Bytes, codes, length, drop, ltb, if◌then◌else◌,
}

abbrev pub max_history : ℕ
max_history = 15

-- The oldest entry stands first in both.
pub record Logger : Type 0 where
  pub queue : List Bytes
  pub history : List Bytes

abbrev pub new_logger : Logger
new_logger = record { queue = []; history = [] }

abbrev pub line : Bytes → Bytes → Bytes
line stamp msg = codes "[" ++ (stamp ++ (codes "] " ++ msg))

-- `history.erase(history.begin())`.
abbrev pub erase_front : List Bytes → List Bytes
erase_front [] = []
erase_front (h ∷ hs) = hs

unfoldable pub log : Bytes → Bytes → Logger → Logger
log stamp msg l =
    let longer = l.history ++ (line stamp msg ∷ []) in
    record {
      queue = l.queue ++ (msg ∷ []);
      history = if ltb max_history (length longer) then erase_front longer else longer;
    }

-- The worker's `while (!queue.empty()) queue.pop();` under the mutex: nothing is printed.
unfoldable pub pop_all : List Bytes → List Bytes
pop_all [] = []
pop_all (msg ∷ msgs) = pop_all msgs

unfoldable pub drain : Logger → Logger
unfolding pop_all
drain l = record l { queue = pop_all l.queue }

unfoldable pub get_recent_logs : Logger → List Bytes
get_recent_logs l = l.history
