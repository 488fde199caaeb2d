-- ===== src/EnvFile/Keys.antt =====
-- The keys of the environment file with their comments, in tools/amp_panel_cli.py.
use amplifier_panel.Base.{String, List, [], ◌∷◌}
use amplifier_panel.Base.Dict.{Dict}

-- `CONFIG_KEYS`
abbrev pub config_keys : List String
config_keys =
    "AMP_PANEL_PORT" ∷ "AMP_PANEL_DATA_DIR" ∷ "XML_STATUS_FILE" ∷ "XML_CONTROL_FILE"
    ∷ "XML_CONTROL_ACK_TIMEOUT_SECONDS" ∷ "XML_MAPPING_FILE" ∷ "XML_POLL_SECONDS"
    ∷ "XML_STALE_SECONDS" ∷ "DEVICE_NAME" ∷ "MDNS_HOSTNAME" ∷ "INITIAL_ADMIN_USERNAME"
    ∷ "INITIAL_ADMIN_PASSWORD_HASH" ∷ "INITIAL_ADMIN_PASSWORD_SALT" ∷ "AUTH_MODE"
    ∷ "PERSISTED_STATE_FILE" ∷ "DATABASE_FILE" ∷ "DATABASE_MAX_RECORDS" ∷ "LOGIN_MAX_ATTEMPTS"
    ∷ "LOGIN_WINDOW_SECONDS" ∷ "SESSION_MAX_AGE_SECONDS" ∷ "SESSION_COOKIE_SECURE"
    ∷ "TRUST_PROXY_HEADERS" ∷ "SYSLOG_ENABLED" ∷ "SYSLOG_HOST" ∷ "SYSLOG_PORT" ∷ "SYSLOG_APP_NAME"
    ∷ "SYSLOG_FACILITY" ∷ "SYSLOG_TIMEZONE" ∷ "SYSLOG_HEARTBEAT_SECONDS" ∷ "SYSLOG_EXPORT_FILE"
    ∷ "REMOTE_SYSLOG_ENABLED" ∷ "REMOTE_SYSLOG_HOST" ∷ "REMOTE_SYSLOG_PORT"
    ∷ "REMOTE_SYSLOG_PROTOCOL" ∷ "TZ" ∷ "SNMP_PORT" ∷ "SNMP_COMMUNITY" ∷ "NTP_SERVER"
    ∷ "NTP_SERVER_FALLBACK_IP" ∷ "NTP_PORT" ∷ "NTP_TIMEOUT_SECONDS" ∷ "NTP_CACHE_SECONDS"
    ∷ "RADIUS_SERVER" ∷ "RADIUS_PORT" ∷ "RADIUS_SECRET" ∷ "RADIUS_TIMEOUT_SECONDS"
    ∷ "RADIUS_RETRIES" ∷ "RADIUS_NAS_IDENTIFIER" ∷ "NETWORK_AGENT_SOCKET" ∷ []

-- `CONFIG_SECTIONS`
abbrev pub config_sections : Dict String String
config_sections =
    ("AMP_PANEL_PORT", "Panel and web interface")
    ∷ ("DEVICE_NAME", "Panel identity")
    ∷ ("INITIAL_ADMIN_USERNAME", "Browser authentication")
    ∷ ("PERSISTED_STATE_FILE", "Stored data and browser sessions")
    ∷ ("SYSLOG_ENABLED", "System logging")
    ∷ ("SNMP_PORT", "SNMP")
    ∷ ("NTP_SERVER", "Time diagnostics")
    ∷ ("RADIUS_SERVER", "RADIUS authentication")
    ∷ ("NETWORK_AGENT_SOCKET", "Internal host service")
    ∷ []

-- `CONFIG_HELP`
abbrev pub config_help : Dict String String
config_help =
    ("XML_STATUS_FILE", "Path to status.xml refreshed by the external daemon (read-only).")
    ∷ ("XML_CONTROL_FILE", "Device-facing control XML written atomically by Amp Panel.")
    ∷ (
      "XML_CONTROL_ACK_TIMEOUT_SECONDS",
      "Seconds allowed for the device to acknowledge a control request.",
    )
    ∷ ("XML_MAPPING_FILE", "JSON field mapping; changes apply automatically on the next poll.")
    ∷ ("XML_POLL_SECONDS", "XML polling interval in seconds (minimum 0.2).")
    ∷ ("XML_STALE_SECONDS", "Mark source stale after this many seconds without a file refresh.")
    ∷ ("AMP_PANEL_PORT", "Web interface TCP port: integer from 1024 to 65535, for example 8000.")
    ∷ (
      "AMP_PANEL_DATA_DIR",
      "Data directory: /var/lib/amp-panel or a path below /mnt, /media or /srv.",
    )
    ∷ ("DEVICE_NAME", "Device name used in logs and as the default RADIUS identifier.")
    ∷ (
      "MDNS_HOSTNAME",
      "mDNS hostname without .local: lowercase letters, digits and hyphens, for example amp-panel.",
    )
    ∷ (
      "INITIAL_ADMIN_USERNAME",
      "Administrator name: letters, digits, dot, underscore, @ or hyphen.",
    )
    ∷ (
      "INITIAL_ADMIN_PASSWORD_HASH",
      "Generated local-admin password hash; never enter a plain-text password here.",
    )
    ∷ (
      "INITIAL_ADMIN_PASSWORD_SALT", "Generated local-admin password salt; do not change manually.",
    )
    ∷ ("AUTH_MODE", "Browser authentication mode: radius or local.")
    ∷ (
      "PERSISTED_STATE_FILE",
      "JSON file for panel settings and local accounts; must be inside AMP_PANEL_DATA_DIR.",
    )
    ∷ ("DATABASE_FILE", "SQLite measurement database; must be inside AMP_PANEL_DATA_DIR.")
    ∷ ("DATABASE_MAX_RECORDS", "Maximum stored records; 0 means unlimited.")
    ∷ ("LOGIN_MAX_ATTEMPTS", "Failed login attempts allowed within LOGIN_WINDOW_SECONDS.")
    ∷ ("LOGIN_WINDOW_SECONDS", "Login rate-limit window in seconds.")
    ∷ ("SESSION_MAX_AGE_SECONDS", "Maximum browser session age in seconds.")
    ∷ (
      "SESSION_COOKIE_SECURE",
      "true only when served over HTTPS; false for HTTP, which cannot send Secure cookies.",
    )
    ∷ ("TRUST_PROXY_HEADERS", "true only behind a trusted reverse proxy; otherwise false.")
    ∷ ("SYSLOG_ENABLED", "Send application events to syslog: true or false.")
    ∷ ("SYSLOG_HOST", "Local syslog receiver address, normally 127.0.0.1.")
    ∷ ("SYSLOG_PORT", "Local syslog receiver UDP port, normally 514.")
    ∷ ("SYSLOG_APP_NAME", "Application name shown in syslog entries.")
    ∷ ("SYSLOG_FACILITY", "Numeric syslog facility, normally 16 (local0).")
    ∷ ("SYSLOG_TIMEZONE", "IANA timezone for syslog timestamps, for example Europe/Warsaw.")
    ∷ ("SYSLOG_HEARTBEAT_SECONDS", "Seconds between health messages; 0 disables them.")
    ∷ ("SYSLOG_EXPORT_FILE", "Text log file available for export from the panel.")
    ∷ ("REMOTE_SYSLOG_ENABLED", "Forward logs to a remote server: true or false.")
    ∷ ("REMOTE_SYSLOG_HOST", "Remote syslog address; required when REMOTE_SYSLOG_ENABLED=true.")
    ∷ ("REMOTE_SYSLOG_PORT", "Remote syslog port: integer from 1 to 65535.")
    ∷ ("REMOTE_SYSLOG_PROTOCOL", "Remote syslog transport: tcp or udp.")
    ∷ ("TZ", "Process timezone, normally the same as SYSLOG_TIMEZONE.")
    ∷ ("SNMP_PORT", "Local SNMP agent UDP port: integer from 1024 to 65535.")
    ∷ (
      "SNMP_COMMUNITY",
      "Required SNMP community secret; use a long random value and keep it private.",
    )
    ∷ ("NTP_SERVER", "NTP server hostname used for time diagnostics.")
    ∷ ("NTP_SERVER_FALLBACK_IP", "Fallback NTP server IPv4 address.")
    ∷ ("NTP_PORT", "NTP server UDP port, normally 123.")
    ∷ ("NTP_TIMEOUT_SECONDS", "NTP response timeout in seconds.")
    ∷ ("NTP_CACHE_SECONDS", "Time-diagnostics result cache duration in seconds.")
    ∷ ("RADIUS_SERVER", "RADIUS hostname or IP address; required when AUTH_MODE=radius.")
    ∷ ("RADIUS_PORT", "RADIUS authentication UDP port: integer from 1 to 65535, normally 1812.")
    ∷ ("RADIUS_SECRET", "RADIUS shared secret; required when AUTH_MODE=radius. Keep it private.")
    ∷ ("RADIUS_TIMEOUT_SECONDS", "RADIUS response timeout in seconds.")
    ∷ ("RADIUS_RETRIES", "RADIUS retries after the first request.")
    ∷ ("RADIUS_NAS_IDENTIFIER", "Panel identifier sent to the RADIUS server.")
    ∷ (
      "NETWORK_AGENT_SOCKET",
      "Unix socket for protected network configuration; do not change manually.",
    )
    ∷ []
