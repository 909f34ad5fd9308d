-- ===== src/Connections/Validation/Usable.antt =====
-- What validation.rs demands of each kind of connection, said without the order of its checks.
use nazh.Base.{
  ℕ, ◌≡◌, ◌≢◌, ◌≤◌, ◌<◌, refl, sym, ◌∙◌, ◌↔◌, ◌⊎◌, inl, inr, true, false, Option, none, some,
  String, to_ascii_lowercase, eq_iff, arith, Option-cases,
}
use nazh.Json.{JsonNumber, Value}
use nazh.Connections.Types.{unsupported}
use nazh.Connections.Validation.{
  ConnectionKind, serial, modbus, mqtt, http, bark, can, ethercat, normalize_connection_kind,
  kind_of, is_can_interface, is_can_bitrate, is_ethercat_backend, text_field, number_field,
  is_zero_field, check_serial, check_modbus, check_mqtt, check_http, check_bark, check_can,
  check_ethercat, check_fields, validate_connection_definition,
}

interface_filled : (s : String) → is_can_interface s ≡ true → s ≢ ""
unfolding is_can_interface
interface_filled s h e = let r : is_can_interface s ≡ false = rw e refl in ground (arith, r, h)

bitrate_positive : (n : ℕ) → is_can_bitrate n ≡ true → 0 < n
unfolding is_can_bitrate
bitrate_positive n h = ground arith

backend_filled : (s : String) → is_ethercat_backend s ≡ true → s ≢ ""
unfolding is_ethercat_backend
backend_filled s h e = let r : is_ethercat_backend s ≡ false = rw e refl in ground (arith, r, h)

module _ (J : JsonNumber) (parse_url : String → Option String) where
  open J use {Number}

  abbrev Filled : Value Number → String → Type 0
  Filled m key = text_field J parse_url m key ≢ ""

  pub IsUsable : ConnectionKind → Value Number → Type 0
  IsUsable serial m = Filled m "port_path" × (0 < number_field J parse_url m "baud_rate")
  IsUsable modbus m =
      Filled m "host"
      × (0 < number_field J parse_url m "port")
      × (number_field J parse_url m "port" ≤ 65535)
  IsUsable mqtt m = Filled m "host" × Filled m "topic"
  IsUsable http m = Filled m "url" × (parse_url (text_field J parse_url m "url") ≡ none)
  IsUsable bark m =
      Filled m "device_key"
      × ((text_field J parse_url m "server_url" ≡ "")
          ⊎ (parse_url (text_field J parse_url m "server_url") ≡ none))
  IsUsable can m =
      (is_can_interface (text_field J parse_url m "interface") ≡ true)
      × Filled m "channel"
      × (0 < number_field J parse_url m "baud_rate")
      × (is_can_bitrate (number_field J parse_url m "bitrate") ≡ true)
  IsUsable ethercat m =
      (is_ethercat_backend (to_ascii_lowercase (text_field J parse_url m "backend")) ≡ true)
      × Filled m "interface"
      × (0 < number_field J parse_url m "cycle_time_ms")
      × (is_zero_field J parse_url m "cycle_time_us" ≡ false)
      × (is_zero_field J parse_url m "dc_sync0_period_us" ≡ false)
      × (is_zero_field J parse_url m "dc_start_delay_us" ≡ false)
      × (0 < number_field J parse_url m "op_timeout_ms")

  -- the kind is known and its fields are usable
  abbrev pub Usable : String → Value Number → Type 0
  Usable kind m =
      (k : ConnectionKind) × (kind_of (normalize_connection_kind kind) ≡ some k) × IsUsable k m

  serial_iff : (m : Value Number) → (check_serial J parse_url m ≡ none) ↔ IsUsable serial m
  unfolding check_serial IsUsable
  serial_iff m = ground (arith, eq_iff (text_field J parse_url m "port_path") "")

  modbus_iff : (m : Value Number) → (check_modbus J parse_url m ≡ none) ↔ IsUsable modbus m
  unfolding check_modbus IsUsable
  modbus_iff m = ground (arith, eq_iff (text_field J parse_url m "host") "")

  mqtt_iff : (m : Value Number) → (check_mqtt J parse_url m ≡ none) ↔ IsUsable mqtt m
  unfolding check_mqtt IsUsable
  mqtt_iff m = ground (
    arith,
    eq_iff (text_field J parse_url m "host") "",
    eq_iff (text_field J parse_url m "topic") "",
  )

  http_iff : (m : Value Number) → (check_http J parse_url m ≡ none) ↔ IsUsable http m
  unfolding check_http IsUsable
  http_iff m = ground (arith, eq_iff (text_field J parse_url m "url") "")

  bark_iff : (m : Value Number) → (check_bark J parse_url m ≡ none) ↔ IsUsable bark m
  unfolding check_bark IsUsable
  bark_iff m = ground (
    arith,
    eq_iff (text_field J parse_url m "device_key") "",
    eq_iff (text_field J parse_url m "server_url") "",
  )

  can_iff : (m : Value Number) → (check_can J parse_url m ≡ none) ↔ IsUsable can m
  unfolding check_can IsUsable
  can_iff m =
      let interface = text_field J parse_url m "interface" in
      ground (
        arith,
        eq_iff interface "",
        eq_iff (text_field J parse_url m "channel") "",
        interface_filled interface,
        bitrate_positive (number_field J parse_url m "bitrate"),
      )

  ethercat_iff : (m : Value Number) → (check_ethercat J parse_url m ≡ none) ↔ IsUsable ethercat m
  unfolding check_ethercat IsUsable
  ethercat_iff m =
      let backend = to_ascii_lowercase (text_field J parse_url m "backend") in
      ground (
        arith,
        eq_iff backend "",
        eq_iff (text_field J parse_url m "interface") "",
        backend_filled backend,
      )

  fields_iff :
      (k : ConnectionKind) (m : Value Number) → (check_fields J parse_url k m ≡ none) ↔ IsUsable k m
  unfolding check_fields
  fields_iff serial m = serial_iff m
  fields_iff modbus m = modbus_iff m
  fields_iff mqtt m = mqtt_iff m
  fields_iff http m = http_iff m
  fields_iff bark m = bark_iff m
  fields_iff can m = can_iff m
  fields_iff ethercat m = ethercat_iff m

  -- A definition passes the validation exactly when its kind, trimmed and in lower case, is one of
  -- the known names and every field that this kind needs is usable.
  pub accepted_iff_Usable :
      (kind : String) (m : Value Number)
      → (validate_connection_definition J parse_url kind m ≡ none) ↔ Usable kind m
  unfolding validate_connection_definition
  accepted_iff_Usable kind m = (accepted, usable)
    where
      accepted : validate_connection_definition J parse_url kind m ≡ none → Usable kind m
      accepted h = elim (Option-cases (kind_of (normalize_connection_kind kind))) [
        | inl e ↦
            let r : validate_connection_definition J parse_url kind m
                ≡ some (unsupported "不支持的连接类型" kind) =
              rw (e, validate_connection_definition) refl in
            ground (arith, r, h)
        | inr (k, e) ↦
            let r : validate_connection_definition J parse_url kind m
                ≡ check_fields J parse_url k m =
              rw (e, validate_connection_definition) refl in
            (k, e, (fields_iff k m).0 (sym r ∙ h))
      ]

      usable : Usable kind m → validate_connection_definition J parse_url kind m ≡ none
      usable (k, e, u) = rw (e, validate_connection_definition) ((fields_iff k m).1 u)
