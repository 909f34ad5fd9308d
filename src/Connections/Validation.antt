-- ===== src/Connections/Validation.antt =====
-- crates/connections/src/validation.rs: the kinds of connection and the fields each needs.
-- `parse_url` stands for `Url::parse` of the crate `url`: the text of its error, if it has one.
use nazh.Base.{
  ℕ, Bool, true, false, not, ◌&&◌, ◌||◌, Option, none, some, String, str_eq, if◌then◌else◌, ltb,
  ◌==◌, trim, to_ascii_lowercase,
}
use nazh.Json.{JsonNumber, Value, get_field, as_object, as_str, as_u64}
use nazh.Connections.Types.{Message, text, unsupported, unsupported_bitrate, url_error}
pub mod Usable

pub data ConnectionKind : Type 0 where
  serial modbus mqtt http bark can ethercat : ConnectionKind

abbrev pub normalize_connection_kind : String → String
normalize_connection_kind value = to_ascii_lowercase (trim value)

-- the arms of the `match` on the normalized kind
unfoldable pub kind_of : String → Option ConnectionKind
kind_of k =
    if str_eq k "serial"
      || str_eq k "serialport"
      || str_eq k "serial_port"
      || str_eq k "uart"
      || str_eq k "rs232"
      || str_eq k "rs485"
    then some serial
    else if str_eq k "modbus" || str_eq k "modbus_tcp"
    then some modbus
    else if str_eq k "mqtt"
    then some mqtt
    else if str_eq k "http" || str_eq k "http_sink"
    then some http
    else if str_eq k "bark" || str_eq k "bark_push"
    then some bark
    else if str_eq k "can" || str_eq k "can-slcan" || str_eq k "slcan"
    then some can
    else if str_eq k "ethercat" || str_eq k "ethercat-ethercrab" || str_eq k "ecat"
    then some ethercat
    else none

unfoldable pub is_can_interface : String → Bool
is_can_interface s = str_eq s "slcan" || str_eq s "mock" || str_eq s "virtual"

unfoldable pub is_can_bitrate : ℕ → Bool
is_can_bitrate n =
    n == 10000
    || n == 20000
    || n == 50000
    || n == 100000
    || n == 125000
    || n == 250000
    || n == 500000
    || n == 800000
    || n == 1000000

unfoldable pub is_ethercat_backend : String → Bool
is_ethercat_backend s = str_eq s "ethercrab" || str_eq s "mock"

-- an early return
abbrev pub refuse_if : Bool → Message → Option Message → Option Message
refuse_if true reason rest = some reason
refuse_if false reason rest = rest

module _ (J : JsonNumber) (parse_url : String → Option String) where
  open J use {Number}

  abbrev metadata_field : Value Number → String → Option (Value Number)
  metadata_field metadata key = elim (as_object metadata) [
    | none ↦ none
    | some fields ↦ get_field key fields
  ]

  -- `.and_then(Value::as_str).map(str::trim).unwrap_or_default()`
  unfoldable pub text_field : Value Number → String → String
  text_field metadata key = elim (metadata_field metadata key) [
    | none ↦ ""
    | some v ↦ elim (as_str v) [ none ↦ "" | some s ↦ trim s ]
  ]

  -- `.and_then(Value::as_u64).unwrap_or(0)`
  unfoldable pub number_field : Value Number → String → ℕ
  number_field metadata key = elim (metadata_field metadata key) [
    | none ↦ 0
    | some v ↦ elim (as_u64 J v) [ none ↦ 0 | some n ↦ n ]
  ]

  -- `.is_some_and(|value| value.as_u64() == Some(0))`
  unfoldable pub is_zero_field : Value Number → String → Bool
  is_zero_field metadata key = elim (metadata_field metadata key) [
    | none ↦ false
    | some v ↦ elim (as_u64 J v) [ none ↦ false | some n ↦ n == 0 ]
  ]

  abbrev check_url : String → String → Option Message
  check_url label url = elim (parse_url url) [ none ↦ none | some e ↦ some (url_error label e) ]

  unfoldable pub check_serial : Value Number → Option Message
  check_serial m =
      refuse_if (str_eq (text_field m "port_path") "") (text "串口连接需要配置 port_path")
        (refuse_if (number_field m "baud_rate" == 0) (text "串口连接需要配置有效的 baud_rate") none)

  unfoldable pub check_modbus : Value Number → Option Message
  check_modbus m =
      let port = number_field m "port" in
      refuse_if (str_eq (text_field m "host") "") (text "Modbus 连接需要配置 host")
        (refuse_if (port == 0 || ltb 65535 port) (text "Modbus 连接需要配置 1-65535 之间的 port") none)

  unfoldable pub check_mqtt : Value Number → Option Message
  check_mqtt m =
      refuse_if (str_eq (text_field m "host") "") (text "MQTT 连接需要配置 host")
        (refuse_if (str_eq (text_field m "topic") "") (text "MQTT 连接需要配置 topic") none)

  unfoldable pub check_http : Value Number → Option Message
  check_http m =
      refuse_if (str_eq (text_field m "url") "") (text "HTTP 连接需要配置 URL")
        (check_url "HTTP URL 无效" (text_field m "url"))

  unfoldable pub check_bark : Value Number → Option Message
  check_bark m =
      refuse_if (str_eq (text_field m "device_key") "") (text "Bark 连接需要配置 device_key 或完整推送 URL") (
        if str_eq (text_field m "server_url") ""
        then none
        else check_url "Bark server_url 无效" (text_field m "server_url"))

  unfoldable pub check_can : Value Number → Option Message
  check_can m =
      let interface = text_field m "interface" in
      let bitrate = number_field m "bitrate" in
      refuse_if (str_eq interface "") (text "CAN-SLCAN 连接需要配置 interface（slcan/mock/virtual）") (
        refuse_if (not (is_can_interface interface)) (unsupported "CAN 连接 interface 不支持" interface)
          (refuse_if (str_eq (text_field m "channel") "") (text "CAN-SLCAN 连接需要配置 channel（串口设备路径）")
            (refuse_if (number_field m "baud_rate" == 0) (text "CAN-SLCAN 连接需要配置有效的 baud_rate") (
              refuse_if (bitrate == 0) (text "CAN-SLCAN 连接需要配置 CAN 总线 bitrate")
                (refuse_if (not (is_can_bitrate bitrate)) (unsupported_bitrate bitrate) none)))))

  unfoldable pub check_ethercat : Value Number → Option Message
  check_ethercat m =
      let backend = to_ascii_lowercase (text_field m "backend") in
      refuse_if (str_eq backend "") (text "EtherCAT 连接需要配置 backend（ethercrab/mock）") (
        refuse_if (not (is_ethercat_backend backend)) (unsupported "EtherCAT 连接不支持 backend" backend)
          (refuse_if (str_eq (text_field m "interface") "")
            (text "EtherCAT 连接需要配置 interface（网络接口名）")
            (refuse_if (number_field m "cycle_time_ms" == 0)
              (text "EtherCAT 连接 cycle_time_ms 必须大于 0")
              (refuse_if (is_zero_field m "cycle_time_us") (text "EtherCAT 连接 cycle_time_us 必须大于 0")
                (refuse_if (is_zero_field m "dc_sync0_period_us")
                  (text "EtherCAT 连接 dc_sync0_period_us 必须大于 0")
                  (refuse_if (is_zero_field m "dc_start_delay_us")
                    (text "EtherCAT 连接 dc_start_delay_us 必须大于 0")
                    (refuse_if (number_field m "op_timeout_ms" == 0)
                      (text "EtherCAT 连接 op_timeout_ms 必须大于 0") none)))))))

  unfoldable pub check_fields : ConnectionKind → Value Number → Option Message
  unfolding check_serial check_modbus check_mqtt check_http check_bark check_can check_ethercat
  check_fields serial m = check_serial m
  check_fields modbus m = check_modbus m
  check_fields mqtt m = check_mqtt m
  check_fields http m = check_http m
  check_fields bark m = check_bark m
  check_fields can m = check_can m
  check_fields ethercat m = check_ethercat m

  unfoldable pub validate_connection_definition : String → Value Number → Option Message
  validate_connection_definition kind m = elim (kind_of (normalize_connection_kind kind)) [
    | none ↦ some (unsupported "不支持的连接类型" kind)
    | some k ↦ check_fields k m
  ]
