-- ===== src/Tests/Stops.antt =====
-- A node stopped in a round.
use smart_sensor_network.Prelude.{◌≡◌, ◌≤◌, false}
use smart_sensor_network.Node.Stop.{
  working, left, SensorNode, new_node, stop_node, enter_node, here,
}
use smart_sensor_network.Node.Late.{round_off, Steps-stop_node}
use smart_sensor_network.Tests.Nodes.{lesser, send_ok, thermometer, at}

-- A node that entered `run()` and is in its round.
abbrev made : SensorNode
made = new_node thermometer 1000 2000

abbrev in_round : SensorNode
in_round = record (enter_node 100 101 made) { place = working }

Steps-stop_node_example :
    let n = stop_node in_round in
    (n.running ≡ false) × (0 ≤ 1) × ((round_off lesser send_ok (at 2200) n).place ≡ left)
Steps-stop_node_example = Steps-stop_node lesser send_ok in_round (at 2200) (λ e. cc) here
