-- ===== src/Monitor.antt =====
-- src/monitor/Monitor.cpp: the reports on the gateway.
-- Each call of the gateway takes and releases its mutex, so a report may see it at several moments:
-- each such view is an argument. `show` is what `operator<<` prints of a `double`.
pub mod Counts
pub mod Order
use smart_sensor_network.Prelude.{
  ℕ, zero, suc, ◌+◌, ◌-◌, Option, none, some, List, [], ◌∷◌, ◌++◌, Bytes, codes, length, replicate,
  leb, if◌then◌else◌, Result, ok, throw, Exception, out_of_range, ◌>>=◌,
}
use smart_sensor_network.Prelude.Decimal.{decimal}
use smart_sensor_network.Protocol.{SensorHealth, unknown, online, offline, TelemetryMessage}
use smart_sensor_network.Protocol.Strings.{type_name, state_name, message_name, health_name}
use smart_sensor_network.Registry.{find, keys}
use smart_sensor_network.Gateway.{
  SensorInfo, Sensors, Gateway, is_offline, seconds_since_last_heartbeat,
}

pub record HealthCounts : Type 0 where
  pub online_count : ℕ
  pub offline_count : ℕ
  pub unknown_count : ℕ

pub record SystemStats : Type 0 where
  pub total_sensors : ℕ
  pub telemetry_packets : ℕ
  pub heartbeat_packets : ℕ
  pub health : HealthCounts

-- The gateway and the clock when a call of the gateway has its mutex.
pub record Moment : Type 0 where
  pub gateway : Gateway
  pub now : ℕ

abbrev pub age_at : Moment → ℕ → ℕ
age_at m id = seconds_since_last_heartbeat m.now id m.gateway

-- The `switch` on a sensor's health.
abbrev pub count_one : SensorHealth → HealthCounts → HealthCounts
count_one online hc = record hc { online_count = hc.online_count + 1 }
count_one offline hc = record hc { offline_count = hc.offline_count + 1 }
count_one unknown hc = record hc { unknown_count = hc.unknown_count + 1 }

unfoldable pub count_from : HealthCounts → Sensors → HealthCounts
count_from hc [] = hc
count_from hc ((id, info) ∷ rest) = count_from (count_one info.health hc) rest

abbrev pub no_counts : HealthCounts
no_counts = record { online_count = 0; offline_count = 0; unknown_count = 0 }

unfoldable pub count_health_sensors : Sensors → HealthCounts
unfolding count_from
count_health_sensors sensors = count_from no_counts sensors

-- The views are those of `getSensors` here and in `countHealthSensors`, and of the two counters.
unfoldable pub get_stats : Sensors → Sensors → ℕ → ℕ → SystemStats
unfolding count_health_sensors
get_stats sensors counted telemetry_packets heartbeat_packets =
    let count = count_health_sensors counted in
    record {
      total_sensors = length sensors;
      telemetry_packets = telemetry_packets;
      heartbeat_packets = heartbeat_packets;
      health = record {
        online_count = count.online_count;
        offline_count = count.offline_count;
        unknown_count = 0;
      };
    }

-- `std::sort` of ids.
unfoldable pub insert_id : ℕ → List ℕ → List ℕ
insert_id a [] = a ∷ []
insert_id a (b ∷ bs) = if leb a b then a ∷ b ∷ bs else b ∷ insert_id a bs

unfoldable pub sort_ids : List ℕ → List ℕ
unfolding insert_id
sort_ids [] = []
sort_ids (a ∷ as') = insert_id a (sort_ids as')

-- `std::left << std::setw(width)`: a longer text stays whole.
unfoldable pub setw : ℕ → Bytes → Bytes
setw width text = text ++ replicate (width - length text) b' '

abbrev pub list_heading : Bytes
list_heading = codes "\n=== SENSOR LIST ===\n\n"

unfoldable pub list_columns : Bytes
unfolding setw
list_columns =
    setw 6 (codes "ID")
    ++ (setw 15 (codes "TYPE")
        ++ (setw 12 (codes "STATE")
            ++ (setw 12 (codes "HEALTH")
                ++ (codes "LAST HB\n"
                    ++ codes "-----------------------------------------------------\n"))))

-- The row of an id, with the age that the gateway gives while the row is written.
unfoldable pub list_row : ℕ → SensorInfo → ℕ → Bytes
unfolding setw
list_row id info age =
    setw 6 (decimal id)
    ++ (setw 15 (type_name info.last_telemetry.type)
        ++ (setw 12 (state_name info.last_telemetry.state)
            ++ (setw 12 (health_name info.health) ++ (decimal age ++ codes " sec\n"))))

-- `sensors.at(id)`.
abbrev pub found : Option SensorInfo → Result SensorInfo
found none = throw (out_of_range (codes "_Map_base::at"))
found (some info) = ok info

unfoldable pub list_rows : (ℕ → Moment) → Sensors → List ℕ → Result Bytes
unfolding list_row
list_rows seen sensors [] = ok []
list_rows seen sensors (id ∷ ids) = do
  info ← found (find id sensors)
  rest ← list_rows seen sensors ids
  ok (list_row id info (age_at (seen id) id) ++ rest)

-- `seen id` is the moment at which the row of `id` asks for its age.
unfoldable pub sensor_list : (ℕ → Moment) → Sensors → Result Bytes
unfolding list_rows list_columns
sensor_list seen sensors = do
  rows ← list_rows seen sensors (sort_ids (keys sensors))
  ok (list_heading ++ (list_columns ++ (rows ++ codes "\n\n\n")))

abbrev pub sensor_not_found : Bytes
sensor_not_found = codes "sensor not found\n\n"

unfoldable pub details : (ℕ → Bytes) → Moment → ℕ → SensorInfo → Bytes
details show seen id info =
    let r = info.last_telemetry in
    codes "\n=== SENSOR INFORMATION ===\n\n"
    ++ (codes "Packet Header\n--------------\nmessageType : "
        ++ (message_name r.header.type
            ++ (codes "\nsensorId    : "
                ++ (decimal id
                    ++ (codes "\ntimestamp   : "
                        ++ (decimal r.header.timestamp_ms
                            ++ (codes "\n\nTelemetry Payload\n-----------------\nsensorType  : "
                                ++ (type_name r.type
                                    ++ (codes "\nstate       : "
                                        ++ (state_name r.state
                                            ++ (codes "\nvalue       : "
                                                ++ (show r.value
                                                    ++ (codes
                                                          "\n\nHeartbeat Status\n----------------\nhealth         : "
                                                        ++ (health_name info.health
                                                            ++ (codes "\nlast heartbeat : "
                                                            ++ (decimal (age_at seen id)
                                                            ++ codes
                                                            " sec ago\n\n\n"))))))))))))))))

unfoldable pub details_of : (ℕ → Bytes) → Moment → ℕ → Option SensorInfo → Bytes
unfolding details
details_of show seen id none = sensor_not_found
details_of show seen id (some info) = details show seen id info

unfoldable pub sensor_details : (ℕ → Bytes) → Moment → Sensors → ℕ → Bytes
unfolding details_of
sensor_details show seen sensors id = details_of show seen id (find id sensors)

unfoldable pub help : Bytes
help =
    codes "\nAvailable commands:\n"
    ++ (codes "-------------------\n"
        ++ (codes "list              - Show all sensors\n"
            ++ (codes "get <id>          - Show sensor details\n"
                ++ (codes "health            - Show sensor health status\n"
                    ++ (codes "stats             - Show system statistics\n"
                        ++ codes "help              - Show available commands\n\n\n")))))

unfoldable pub offline_rows : Sensors → Bytes
offline_rows [] = []
offline_rows ((id, info) ∷ rest) =
    (if is_offline info.health
      then codes "- Sensor "
        ++ (decimal id ++ (codes " (" ++ (type_name info.last_telemetry.type ++ codes ")\n")))
      else [])
    ++ offline_rows rest

unfoldable pub health_summary : Sensors → Sensors → Bytes
unfolding offline_rows count_health_sensors
health_summary sensors counted =
    let count = count_health_sensors counted in
    codes "\n=== HEALTH SUMMARY ===\n\n"
    ++ (codes "ONLINE  : "
        ++ (decimal count.online_count
            ++ (codes "\nOFFLINE : "
                ++ (decimal count.offline_count
                    ++ (codes "\nUNKNOWN : "
                        ++ (decimal count.unknown_count
                            ++ (codes "\n\nOffline sensors:\n"
                                ++ (offline_rows sensors ++ codes "\n\n\n"))))))))

unfoldable pub stats : SystemStats → Bytes
stats s =
    codes "\n=== SYSTEM STATISTICS ===\n\n"
    ++ (codes "Total sensors      : "
        ++ (decimal s.total_sensors
            ++ (codes "\nTelemetry packets  : "
                ++ (decimal s.telemetry_packets
                    ++ (codes "\nHeartbeat messages : "
                        ++ (decimal s.heartbeat_packets
                            ++ (codes "\nOnline sensors     : "
                                ++ (decimal s.health.online_count
                                    ++ (codes "\nOffline sensors    : "
                                        ++ (decimal s.health.offline_count
                                            ++ codes "\n\n\n"))))))))))
