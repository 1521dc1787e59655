-- ===== src/Lib.antt =====
-- The verification library of GivEVC-OCPPv2, a portal and OCPP 1.6 server for GivEnergy chargers.
--
-- The program. givEVC-ocppv2/app/ocpp/server.py accepts the WebSocket of a charger and runs a
-- session (ocpp/charge_point.py), which hands what the charger says to the coordinator
-- (ocpp/coordinator.py) and carries the coordinator's calls to the charger. The coordinator keeps
-- one `ChargerState` (ocpp/state.py) for each charger and stores it through the store of accounts
-- and chargers (auth_store.py). ocpp/firmware_server.py hands out firmware files and reports its
-- transfers to the coordinator. main.py is the HTTP interface to all of them.
--
-- What is modelled.
--   Base: names that every module shares: Boolean tests, `==`, list loops, integers, and text as
--     ASCII codes with Python's `strip`, `isdigit`, `int` and `str` of numbers.
--   Schedule: charging schedules in ocpp/coordinator.py.
--     Time: `_normalise_time`, `_split_hhmm`. Item: `_normalise_schedule`, `_next_schedule_id`,
--     `_normalise_schedule_list`. Periods: `_add_circular_schedule_interval`,
--     `_schedule_periods_from_intervals`. Payload: `_build_charging_schedule_payload`. Book: the
--     list of schedules with `async_save_charging_schedule`,
--     `async_set_charging_schedule_enabled` and `async_delete_charging_schedule`. Dst: the push of
--     schedules when the local clock changes, `async_dst_correction`. Coverage, Windows,
--     Profile and Wall say what windows, profiles and the local clock mean, independently of the
--     code; Contract, Circular, Weekly, Daily and Midnight hold the theorems.
--   Firmware: the firmware update of one charger in ocpp/coordinator.py.
--     Names: event names and paths. State: the fields of the update with the `_mark_` functions.
--     Version: `_firmware_version_key`, `_compare_firmware_versions`,
--     `_derive_firmware_version_from_filename`. Session: `_start_firmware_update_session`,
--     `_apply_firmware_ocpp_status`, boots. Events: `record_firmware_transfer_event`. Commands:
--     `async_install_firmware_file`, `async_update_firmware`, `cancel_firmware_update`. Routing:
--     `_charge_point_id_for_firmware_event`. Consistency, Invariant, Runs, Transfer,
--     Completion and Outcomes hold the theorems.
--   Rfid: the RFID tags of one charger with a live state in ocpp/coordinator.py: `async_save_rfid_tag`,
--     `async_set_rfid_tag_enabled`, `async_delete_rfid_tag`. Entries: one tag and the
--     entries sent. Unique and Outcomes hold the theorems.
--
--   Accounts: the store of accounts in auth_store.py and the handlers of main.py that sign in.
--     Tables: the rows of the tables, what the code asks of SQLite on them, and the
--     cryptography as a parameter. Email: `_normalise_email`. Users: `create_user`,
--     `authenticate_password`, `set_user_theme_preference`, `create_session`, `get_user_for_session`, `change_password`,
--     `set_user_disabled`, `delete_user`. Codes: `create_email_verification_otp`,
--     `verify_email_otp`, `create_password_reset_token`, `reset_password_with_token`. Totp:
--     `create_totp_setup`, `enable_totp`, `disable_totp`, `verify_user_totp`. Chargers:
--     `assign_charger_to_user`, `claim_charger_by_password`, `delete_charger`,
--     `switch_active_charger`, `_ensure_active_charger`, `verify_charger_password`. Keys:
--     `create_api_key`, `validate_api_key`, `revoke_api_key`. SignIn: `api_auth_register`,
--     `api_auth_login`, `api_auth_verify_email`, `api_auth_reset_password` and the handlers
--     beside them. Requests: the handlers of the account, such as `api_account_password` and
--     `api_account_2fa_enable`, and of the administration, such as
--     `api_admin_set_user_disabled`, behind `auth_middleware`. Rows and Inversion hold lemmas on
--     tables and results; Sessions, Admission,
--     Passwords, Disabled, KeyUse, Owned, Choice, Assigned, Registration, Ownership, Reach,
--     OneOpen, Claims and Guarded hold the theorems.
--
--   Ocpp: what stands between a charger and the coordinator. Session: `ChargePointSession` of
--     ocpp/charge_point.py with `_handle_text_message` and `_handle_inbound_call`, and Calls its
--     `async_call`; what a handler has the coordinator do is the list of its methods. Server:
--     `OcppServer` of ocpp/server.py with the admission in `_handle_websocket`, which asks the
--     store in Accounts, the table of sessions and `send_call`. Frames: the log of frames,
--     `record_ocpp_frame` of ocpp/coordinator.py, with its theorem. Answers, Replies and Admission
--     hold the theorems.
--
-- How. Text is ASCII; a moment is a number of seconds since 0001-01-01T00:00:00 on a named clock,
-- and the offset of the local clock from UTC is given. Lists that Python grows at their end and
-- whose last element it reads are kept latest first where a comment says so. The call of a charger
-- is given by how it ends, and a parameter `meanwhile` is what other tasks do while it is awaited;
-- `fetching` is the same for the download of a firmware file, and `flags` for the RFID tags that two
-- tasks hold at once. A list that was read before a call is kept apart from the one after it where the
-- code holds on to it.
-- The rounding of floating-point numbers is a parameter. `decimal` writes a number in n + 1 rounds,
-- which is more than its digits; every other loop is structural recursion. A method of the store
-- that raises commits nothing, so it is a function to a result with the tables; random tokens,
-- identifiers and salts are arguments, and a theorem says where it needs a token to be new.
--
-- Not modelled: sockets, HTTP, SQLite, e-mail, the logs but that of frames, and JSON text, which are input and output;
-- the demo data and the migrations; the hashes, the encryption and the one-time passwords, which are
-- parameters; the connections, transactions, statistics, configuration and the firmware server, which
-- hold no part of the behaviour above.
pub mod Base
pub mod Schedule
pub mod Firmware
pub mod Rfid
pub mod Accounts
pub mod Ocpp
