-- ===== src/Runner/CloudInit/Template.antt =====
-- internal/runner/cloudinit.go: the two templates as what `template.Parse` makes of their text. A
-- template is a list of lines, each of which ends in a line break. An action `{{- if not
-- .Container}}` ... `{{- end}}` on lines of its own takes the line break before it along, so that
-- the lines between the two are there or not as a whole.
use incuse.Base.{Text, codes, List, [], ◌∷◌}

-- The fields of `CloudInitSpec` that a template prints.
pub data Field : Type 0 where
  field_runner_name field_jit_config field_work_folder field_download_url field_sha256 : Field

pub data Piece : Type 0 where
  literal : Text → Piece
  field : Field → Piece
  -- `{{if not .Container}}` ... `{{end}}` within a line
  unless_container : Text → Piece

pub data Line : Type 0 where
  line : List Piece → Line
  line_unless_container : Text → Line

abbrev plain : Text → Line
plain t = line (literal t ∷ [])

-- `cloudInitTemplate`
unfoldable pub cloud_init_template : List Line
cloud_init_template =
    plain (codes "#cloud-config")
    ∷ line (literal (codes "hostname: ") ∷ field field_runner_name ∷ [])
    ∷ plain (codes "preserve_hostname: false")
    ∷ plain []
    ∷ plain (codes "users:")
    ∷ plain (codes "  - name: runner")
    ∷ line (
        literal (codes "    groups: [sudo")
        ∷ unless_container (codes ", docker")
        ∷ literal (codes "]")
        ∷ [])
    ∷ plain (codes "    shell: /bin/bash")
    ∷ plain (codes "    sudo: \"ALL=(ALL) NOPASSWD:ALL\"")
    ∷ plain (codes "    lock_passwd: true")
    ∷ plain []
    ∷ plain (codes "package_update: true")
    ∷ plain (codes "package_upgrade: false")
    ∷ plain (codes "packages:")
    ∷ plain (codes "  - curl")
    ∷ plain (codes "  - tar")
    ∷ plain (codes "  - git")
    ∷ plain (codes "  - jq")
    ∷ plain (codes "  - ca-certificates")
    ∷ line_unless_container (codes "  - docker.io")
    ∷ plain []
    ∷ plain (codes "write_files:")
    ∷ plain (codes "  - path: /etc/incuse/jit.env")
    ∷ plain (codes "    permissions: \"0600\"")
    ∷ plain (codes "    content: |")
    ∷ line (literal (codes "      INCUSE_JIT=") ∷ field field_jit_config ∷ [])
    ∷ plain (codes "  - path: /etc/systemd/system/incuse-runner.service")
    ∷ plain (codes "    permissions: \"0644\"")
    ∷ plain (codes "    content: |")
    ∷ plain (codes "      [Unit]")
    ∷ plain (codes "      Description=GitHub Actions runner (one-shot)")
    ∷ line (
        literal (codes "      After=network-online.target")
        ∷ unless_container (codes " docker.service")
        ∷ [])
    ∷ line (
        literal (codes "      Wants=network-online.target")
        ∷ unless_container (codes " docker.service")
        ∷ [])
    ∷ plain []
    ∷ plain (codes "      [Service]")
    ∷ plain (codes "      Type=oneshot")
    ∷ plain (codes "      User=runner")
    ∷ plain (codes "      Group=runner")
    ∷ plain (codes "      WorkingDirectory=/opt/runner")
    ∷ plain (codes "      EnvironmentFile=/etc/incuse/jit.env")
    ∷ plain (codes "      ExecStart=/opt/runner/run.sh --jitconfig ${INCUSE_JIT}")
    ∷ plain (codes "      ExecStopPost=+/bin/sleep 15")
    ∷ plain (codes "      ExecStopPost=+/sbin/poweroff")
    ∷ plain (codes "      RemainAfterExit=no")
    ∷ plain (codes "      StandardOutput=journal")
    ∷ plain (codes "      StandardError=journal")
    ∷ plain []
    ∷ plain (codes "      [Install]")
    ∷ plain (codes "      WantedBy=multi-user.target")
    ∷ plain []
    ∷ plain (codes "runcmd:")
    ∷ line (
        literal (codes "  - install -d -o runner -g runner -m 0755 /opt/runner /opt/runner/")
        ∷ field field_work_folder
        ∷ [])
    ∷ line (
        literal (codes "  - curl -fsSL \"")
        ∷ field field_download_url
        ∷ literal (codes "\" -o /tmp/runner.tgz")
        ∷ [])
    ∷ line (
        literal (codes "  - echo \"")
        ∷ field field_sha256
        ∷ literal (codes "  /tmp/runner.tgz\" | sha256sum --check -")
        ∷ [])
    ∷ plain (codes "  - tar -xzf /tmp/runner.tgz -C /opt/runner")
    ∷ plain (codes "  - chown -R runner:runner /opt/runner")
    ∷ plain (codes "  - rm -f /tmp/runner.tgz")
    ∷ line_unless_container (codes "  - systemctl enable docker.service")
    ∷ line_unless_container (codes "  - systemctl start docker.service")
    ∷ plain (codes "  - systemctl daemon-reload")
    ∷ plain (codes "  - systemctl enable --now incuse-runner.service")
    ∷ []

-- `cloudInitBakedTemplate`
unfoldable pub cloud_init_baked_template : List Line
cloud_init_baked_template =
    plain (codes "#cloud-config")
    ∷ line (literal (codes "hostname: ") ∷ field field_runner_name ∷ [])
    ∷ plain (codes "preserve_hostname: false")
    ∷ plain []
    ∷ plain (codes "write_files:")
    ∷ plain (codes "  - path: /etc/incuse/jit.env")
    ∷ plain (codes "    permissions: \"0600\"")
    ∷ plain (codes "    content: |")
    ∷ line (literal (codes "      INCUSE_JIT=") ∷ field field_jit_config ∷ [])
    ∷ plain []
    ∷ plain (codes "runcmd:")
    ∷ plain (codes "  - systemctl start incuse-runner.service")
    ∷ []
