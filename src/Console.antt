-- ===== src/Console.antt =====
-- src/ui/ConsoleRenderer.cpp: the dashboard as the bytes that `render` writes behind the cleared screen.
pub mod Layout
use smart_sensor_network.Prelude.{
  ℕ, zero, suc, ◌+◌, ◌-◌, Bool, true, false, List, [], ◌∷◌, ◌++◌, Bytes, codes, length, take,
  replicate, ltb, leb, if◌then◌else◌,
}
use smart_sensor_network.Prelude.Decimal.{decimal}
use smart_sensor_network.Monitor.{SystemStats}
use smart_sensor_network.Tcp.{get_last_command}

abbrev pub system_width : ℕ
system_width = 75

abbrev pub tcp_width : ℕ
tcp_width = 24

-- With `width - 3` below 0, `substr` takes the whole text.
unfoldable pub fit_text : Bytes → ℕ → Bytes
fit_text text width =
    if leb (length text) width
    then text ++ replicate (width - length text) b' '
    else (if ltb width 3 then text else take (width - 3) text) ++ codes "..."

abbrev pub header_lines : List Bytes
header_lines =
    codes
      "+--------------------------------------------------------------------------------------------------------+\n"
    ∷ codes
        "|                                         SMART SENSOR NETWORK                                           |\n"
    ∷ codes
        "|                                  Distributed Embedded Telemetry System                                 |\n"
    ∷ codes
        "+--------------------------------------------------------------------------------------------------------+\n"
    ∷ []

abbrev pub logs_heading : List Bytes
logs_heading =
    codes
      "+-----------------------------------------------------------------------------+--------------------------+\n"
    ∷ codes
        "| SYSTEM LOG                                                                  | TCP MONITOR              |\n"
    ∷ codes
        "|-----------------------------------------------------------------------------|--------------------------|\n"
    ∷ []

abbrev pub logs_border : Bytes
logs_border =
    codes
      "+-----------------------------------------------------------------------------+--------------------------+\n"

unfoldable pub concat : List Bytes → Bytes
concat [] = []
concat (l ∷ ls) = l ++ concat ls

abbrev pub connection : Bool → Bytes
connection true = codes "CONNECTED"
connection false = codes "DISCONNECTED"

abbrev pub tcp_panel : Bool → Bytes → SystemStats → List Bytes
tcp_panel connected last_command stats =
    (codes "Client: " ++ connection connected)
    ∷ codes "Port: 8080"
    ∷ (codes "Last command: " ++ get_last_command last_command)
    ∷ []
    ∷ codes "=== STATISTICS ==="
    ∷ []
    ∷ (codes "Total sensors : " ++ decimal stats.total_sensors)
    ∷ (codes "Telemetry     : " ++ decimal stats.telemetry_packets)
    ∷ (codes "Heartbeat     : " ++ decimal stats.heartbeat_packets)
    ∷ (codes "Online        : " ++ decimal stats.health.online_count)
    ∷ (codes "Offline       : " ++ decimal stats.health.offline_count)
    ∷ []

-- The line at an index, empty behind the end.
unfoldable pub line_at : ℕ → List Bytes → Bytes
line_at i [] = []
line_at zero (l ∷ ls) = l
line_at (suc i) (l ∷ ls) = line_at i ls

unfoldable pub panel_row : Bytes → Bytes → Bytes
unfolding fit_text
panel_row log_line tcp_line =
    codes "| "
    ++ (fit_text log_line system_width
        ++ (codes " | " ++ (fit_text tcp_line tcp_width ++ codes " |\n")))

-- The rounds of the loop that are left, from index `i` on.
unfoldable pub panel_rows : ℕ → ℕ → List Bytes → List Bytes → List Bytes
unfolding panel_row line_at
panel_rows zero i logs panel = []
panel_rows (suc left) i logs panel =
    panel_row (line_at i logs) (line_at i panel) ∷ panel_rows left (i + 1) logs panel

abbrev pub max_lines : List Bytes → List Bytes → ℕ
max_lines logs panel = if ltb (length logs) (length panel) then length panel else length logs

-- The lines that `renderLogs` writes, for what the logger, the server and the monitor give it.
unfoldable pub log_lines : List Bytes → Bool → Bytes → SystemStats → List Bytes
unfolding panel_rows
log_lines logs connected last_command stats =
    let panel = tcp_panel connected last_command stats in
    logs_heading ++ (panel_rows (max_lines logs panel) 0 logs panel ++ (logs_border ∷ []))

abbrev pub architecture : Bytes
architecture =
    codes
      "+--------------------------------------------------------------------------------------------------------+\n"
    ++ (codes
          "| Architecture: Sensor Nodes --> UDP --> Gateway --> TCP --> Monitor                                     |\n"
        ++ (codes
              "+--------------------------------------------------------------------------------------------------------+\n\n"
            ++ (codes "[SYSTEM] Type 'help' to view available commands\n"
                ++ (codes "[SYSTEM] Press ENTER to shutdown..."))))

abbrev pub footer : Bytes
footer = codes "\n"

unfoldable pub render : List Bytes → Bool → Bytes → SystemStats → Bytes
unfolding concat log_lines
render logs connected last_command stats =
    concat header_lines
    ++ (codes "\n"
        ++ (concat (log_lines logs connected last_command stats)
            ++ (codes "\n" ++ (architecture ++ (codes "\n" ++ footer)))))
