-- ===== src/Battery/Profiles.antt =====
-- The list _DEVICE_PROFILES of battery_utils.py.
use ftc_designosaurs.Base.{none, some, List, [], ◌∷◌}
use ftc_designosaurs.Texts.{text}
use ftc_designosaurs.Battery.Device.{Profile}

abbrev nexus_4 : Profile
nexus_4 = record {
  name = text "Nexus 4" ∷ [];
  enable_command =
      some
        (text "echo 0 > /sys/module/pm8921_charger/parameters/disabled && dumpsys battery reset");
  disable_command = some (
      text
        "echo 1 > /sys/module/pm8921_charger/parameters/disabled && dumpsys battery set ac 0 && dumpsys battery set usb 0");
  charge_counter = none;
  voltage = none;
  current = none;
}

abbrev nexus_5 : Profile
nexus_5 = record {
  name = text "Nexus 5" ∷ [];
  enable_command = some (
      text
        "echo 0x4A > /sys/kernel/debug/bq24192/INPUT_SRC_CONT && chmod 644 /sys/class/power_supply/usb/online && echo 1 > /sys/class/power_supply/usb/online && dumpsys battery reset");
  disable_command = some (
      text
        "echo 0xCA > /sys/kernel/debug/bq24192/INPUT_SRC_CONT && chmod 644 /sys/class/power_supply/usb/online && echo 0 > /sys/class/power_supply/usb/online && dumpsys battery set ac 0 && dumpsys battery set usb 0");
  charge_counter = none;
  voltage = none;
  current = none;
}

abbrev nexus_6 : Profile
nexus_6 = record {
  name = text "Nexus 6" ∷ [];
  enable_command =
      some
        (text "echo 1 > /sys/class/power_supply/battery/charging_enabled && dumpsys battery reset");
  disable_command = some (
      text
        "echo 0 > /sys/class/power_supply/battery/charging_enabled && dumpsys battery set ac 0 && dumpsys battery set usb 0");
  charge_counter = some (text "/sys/class/power_supply/max170xx_battery/charge_counter_ext");
  voltage = some (text "/sys/class/power_supply/max170xx_battery/voltage_now");
  current = some (text "/sys/class/power_supply/max170xx_battery/current_now");
}

abbrev nexus_9 : Profile
nexus_9 = record {
  name = text "Nexus 9" ∷ [];
  enable_command = some (
      text
        "echo Disconnected > /sys/bus/i2c/drivers/bq2419x/0-006b/input_cable_state && dumpsys battery reset");
  disable_command = some (
      text
        "echo Connected > /sys/bus/i2c/drivers/bq2419x/0-006b/input_cable_state && dumpsys battery set ac 0 && dumpsys battery set usb 0");
  charge_counter = some (text "/sys/class/power_supply/battery/charge_counter_ext");
  voltage = some (text "/sys/class/power_supply/battery/voltage_now");
  current = some (text "/sys/class/power_supply/battery/current_now");
}

abbrev nexus_10 : Profile
nexus_10 = record {
  name = text "Nexus 10" ∷ [];
  enable_command = none;
  disable_command = none;
  charge_counter = none;
  voltage = some (text "/sys/class/power_supply/ds2784-fuelgauge/voltage_now");
  current = some (text "/sys/class/power_supply/ds2784-fuelgauge/current_now");
}

abbrev nexus_5x : Profile
nexus_5x = record {
  name = text "Nexus 5X" ∷ [];
  enable_command =
      some
        (text "echo 1 > /sys/class/power_supply/battery/charging_enabled && dumpsys battery reset");
  disable_command = some (
      text
        "echo 0 > /sys/class/power_supply/battery/charging_enabled && dumpsys battery set ac 0 && dumpsys battery set usb 0");
  charge_counter = none;
  voltage = none;
  current = none;
}

abbrev galaxy_s5 : Profile
galaxy_s5 = record {
  name = text "SM-G900H" ∷ [];
  enable_command = some (
      text
        "chmod 644 /sys/class/power_supply/battery/test_mode && chmod 644 /sys/class/power_supply/sec-charger/current_now && echo 0 > /sys/class/power_supply/battery/test_mode && echo 9999 > /sys/class/power_supply/sec-charger/current_now &&dumpsys battery reset");
  disable_command = some (
      text
        "chmod 644 /sys/class/power_supply/battery/test_mode && chmod 644 /sys/class/power_supply/sec-charger/current_now && echo 1 > /sys/class/power_supply/battery/test_mode && echo 0 > /sys/class/power_supply/sec-charger/current_now && dumpsys battery set ac 0 && dumpsys battery set usb 0");
  charge_counter = none;
  voltage = some (text "/sys/class/power_supply/sec-fuelgauge/voltage_now");
  current = some (text "/sys/class/power_supply/sec-charger/current_now");
}

abbrev galaxy_s6 : Profile
galaxy_s6 = record {
  name = text "SM-G920F" ∷ text "SM-G920V" ∷ text "SM-G925V" ∷ [];
  enable_command = some (
      text
        "chmod 644 /sys/class/power_supply/battery/test_mode && chmod 644 /sys/class/power_supply/max77843-charger/current_now && echo 0 > /sys/class/power_supply/battery/test_mode && echo 9999 > /sys/class/power_supply/max77843-charger/current_now &&dumpsys battery reset");
  disable_command = some (
      text
        "chmod 644 /sys/class/power_supply/battery/test_mode && chmod 644 /sys/class/power_supply/max77843-charger/current_now && echo 1 > /sys/class/power_supply/battery/test_mode && echo 0 > /sys/class/power_supply/max77843-charger/current_now && dumpsys battery set ac 0 && dumpsys battery set usb 0");
  charge_counter = none;
  voltage = some (text "/sys/class/power_supply/max77843-fuelgauge/voltage_now");
  current = some (text "/sys/class/power_supply/max77843-charger/current_now");
}

abbrev cherry_mobile_one : Profile
cherry_mobile_one = record {
  name = text "W6210 (4560MMX_b fingerprint)" ∷ [];
  enable_command =
      some (text "echo \"0 0\" > /proc/mtk_battery_cmd/current_cmd && dumpsys battery reset");
  disable_command = some (
      text
        "echo \"0 1\" > /proc/mtk_battery_cmd/current_cmd && dumpsys battery set ac 0 && dumpsys battery set usb 0");
  charge_counter = none;
  voltage = none;
  current = none;
}

abbrev pub device_profiles : List Profile
device_profiles =
    nexus_4 ∷ nexus_5 ∷ nexus_6 ∷ nexus_9 ∷ nexus_10 ∷ nexus_5x ∷ galaxy_s5 ∷ galaxy_s6
    ∷ cherry_mobile_one ∷ []
