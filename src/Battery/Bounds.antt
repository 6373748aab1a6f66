-- ===== src/Battery/Bounds.antt =====
-- How long ChargeDeviceToLevel of battery_utils.py waits.
use ftc_designosaurs.Base.{comparable_list, comparable_nat}
use ftc_designosaurs.Battery.Device.{Device, Battery}
use ftc_designosaurs.Battery.Checked.{Checked}
