-- ===== src/I18n/SimplifiedChinese/Forms.antt =====
-- web/lib/i18n/extra-zh.ts: the simplified Chinese texts of the set-up, the API page
-- and the banner.
use wgtemporary_email.Base.{String, [], ◌∷◌}
use wgtemporary_email.Base.Dict.{Dict}

abbrev pub zh_cn_banner : Dict String
zh_cn_banner = ("text", "你正在通过 {host} 访问，建议改用正式域名：") ∷ ("goto", "前往") ∷ ("dismiss", "不再提示") ∷ []

abbrev pub zh_cn_setup : Dict String
zh_cn_setup =
    ("setupTitle", "首次配置")
    ∷ ("setupIntro", "首次使用前请完成以下配置。完成后可随时在管理面板中修改。")
    ∷ ("setupKeySection", "一次性安装密钥")
    ∷ ("setupKeyDesc", "服务启动时会打印：docker compose logs api | grep 'Setup key'。用于防止未初始化的实例被他人抢注接管。")
    ∷ ("setupKeyPlaceholder", "粘贴服务器日志中的安装密钥")
    ∷ ("domainsSection", "收信域名")
    ∷ ("domainsDesc", "本服务接收邮件的域名（至少一个），例如你的域名 example.com")
    ∷ ("addDomain", "添加域名")
    ∷ ("hostnameSection", "邮件服务器主机名")
    ∷ ("hostnameDesc", "MX 记录指向的主机名，DNS 中该名称的 A 记录应指向本服务器")
    ∷ ("tokenSection", "管理令牌")
    ∷ ("tokenDesc", "登录管理面板（/admin）所需的令牌，留空则自动生成")
    ∷ ("tokenPlaceholder", "留空自动生成")
    ∷ ("generate", "随机生成")
    ∷ ("optionalSection", "可选设置")
    ∷ ("optionalDesc", "以下均可在管理面板中随时修改")
    ∷ ("lifetimeLabel", "地址有效期（小时）")
    ∷ ("storageLabel", "总存储上限（MB，0 不限制）")
    ∷ ("allowCustom", "允许用户自定义邮箱用户名")
    ∷ ("serverIpLabel", "服务器公网 IP（用于生成 DNS 记录提示）")
    ∷ ("serverIpPlaceholder", "例如 216.238.53.44")
    ∷ ("webHostnameLabel", "面板访问域名（可选）")
    ∷ ("webHostnameHint", "用于访问网页面板的正式域名，例如 mail.example.com；留空则使用邮件主机名。")
    ∷ ("webHostnamePlaceholder", "mail.example.com")
    ∷ ("saveBtn", "保存并完成初始化")
    ∷ ("saving", "保存中...")
    ∷ ("needDomain", "请至少填写一个域名")
    ∷ ("needHostname", "请填写邮件服务器主机名")
    ∷ ("networkError", "网络错误，请重试")
    ∷ ("doneTitle", "初始化完成")
    ∷ ("doneDesc", "服务已就绪。请先保存下面的信息，再按提示配置 DNS。")
    ∷ ("tokenLabel", "管理面板令牌（仅显示这一次，请妥善保存）")
    ∷ ("copied", "已复制")
    ∷ ("copy", "复制")
    ∷ ("dnsLabel", "需要添加的 DNS 记录")
    ∷ ("aRecord", "A 记录：")
    ∷ ("mxRecord", "MX 记录（{domain}）：")
    ∷ ("ptrHint", "建议同时向 VPS 服务商申请把 {ip} 的反解（PTR）设置为 {hostname}。")
    ∷ ("yourServerIp", "你的服务器IP")
    ∷ ("openSite", "打开用户前端")
    ∷ ("openAdmin", "打开管理面板")
    ∷ ("backendUnreachable", "无法连接后端服务，请确认服务已启动")
    ∷ []

abbrev pub zh_cn_api : Dict String
zh_cn_api =
    ("apiTitle", "API 文档")
    ∷ ("apiDesc", "WGTemporaryEmail 完整 REST API 参考。所有只读接口都可以一键在线测试。")
    ∷ ("invalidJson", "JSON 格式有误")
    ∷ ("baseUrlLabel", "基础地址")
    ∷ ("authUserNote", "用户 API：创建地址时（POST /api/v1/addresses）返回访问令牌，用于 URL 路径中。")
    ∷ ("authAdminNote", "管理 API：需要在请求头中携带管理令牌：Authorization: Bearer <admin.token>。")
    ∷ ("publicSection", "用户 API（公开）")
    ∷ ("adminSection", "管理 API（需令牌）")
    ∷ ("setupSection", "初始化 API")
    ∷ ("adminTokenPlaceholder", "输入管理令牌（可选，用于管理接口测试）")
    ∷ ("runTest", "运行测试")
    ∷ ("testing", "测试中...")
    ∷ ("copyResponse", "复制响应")
    ∷ ("copied", "已复制")
    ∷ ("response", "响应")
    ∷ ("params", "参数")
    ∷ ("example", "示例（curl）")
    ∷ ("descDomains", "获取可用于创建地址的域名列表。")
    ∷ ("descCreateAddress", "创建临时地址。请求体：username（可选，3-64 字符）、domain（可选，须已配置）。")
    ∷ ("descListEmails", "列出某个地址的邮件。查询参数：page、per_page（最大 100）、unread_only、search。")
    ∷ ("descGetEmail", "获取邮件完整详情。查询参数：mark_read=false 保持未读。")
    ∷ ("descDeleteEmail", "删除该地址下的一封邮件。")
    ∷ ("descRawEmail", "下载原始 RFC 5322 邮件（.eml）。")
    ∷ ("descAttachment", "下载邮件的附件。")
    ∷ ("descAdminStats", "仪表盘使用的系统级统计。")
    ∷ ("descAdminAddresses", "列出全部地址。查询参数：page、per_page、search。")
    ∷ ("descAdminAddressDetail", "获取单个地址及其邮件。")
    ∷ ("descAdminDeleteAddress", "删除地址及其全部邮件。危险操作。")
    ∷ ("descAdminEmails", "列出全站收到的邮件。查询参数：page、per_page、search。")
    ∷ ("descAdminEmailDetail", "获取单封邮件的完整详情。")
    ∷ ("descAdminDeleteEmail", "删除一封邮件。危险操作。")
    ∷ ("descAdminDomains", "列出已配置域名及用量统计。")
    ∷ ("descAdminAddDomain", "添加域名（热重载，MX 约 15 秒内生效）。")
    ∷ ("descAdminRemoveDomain", "移除域名。危险操作。")
    ∷ ("descAdminConfig", "查看当前配置（敏感信息脱敏）。")
    ∷ ("descAdminUpdateConfig", "局部更新白名单配置项（热重载）。")
    ∷ ("descAdminCleanup", "立即执行过期地址清理与存储上限清理。危险操作。")
    ∷ ("descSetupStatus", "首次配置向导是否已完成。")
    ∷ ("descHealth", "健康检查：返回服务与数据库是否可用（不含任何配置细节）。")
    ∷ ("descAddressInfo", "返回该令牌绑定的邮箱信息（地址、类型、创建/过期时间）。长效邮箱凭令牌登录时就靠它取回地址。")
    ∷ ("descCreatePermanent", "创建长效邮箱（公开接口、无需鉴权、有限流）。地址永不过期，邮件按配置的保留天数保存。返回访问令牌，请立即保存。")
    ∷ ("descCreatePermanentApi", "使用集成 API 密钥（X-API-Key 请求头）创建长效邮箱。结果与公开接口一致，但需要鉴权，便于外部系统调用。")
    ∷ ("descTlsStatus", "查看邮件主机名与面板域名的证书状态：文件是否存在、到期时间与签发对象。")
    ∷ ("descTlsIssue", "请求 certbot 边车签发/续期 Let's Encrypt 证书（HTTP-01 验证）。要求域名解析到本机且 80 端口可访问。")
    ∷ ("descApiKeyStatus", "查询是否已配置集成 API 密钥（不会返回密钥本身）。")
    ∷ ("descAdminPermanentList", "获取长效地址列表：邮件数、未读数、占用存储与最近收信时间，支持搜索、分页与排序。")
    ∷ ("descAdminPermanentStats", "长效地址总览：总数、存储占用、保留期与已配置的数量上限。")
    ∷ ("descAdminPermanentCreate", "在管理面板创建长效邮箱。返回的访问令牌仅显示一次，它是之后读取该邮箱的唯一凭证。")
    ∷ ("descAdminPermanentPurge", "清除某个长效邮箱的全部邮件，但保留地址本身。")
    ∷ ("descAdminPermanentRetention", "立即执行保留期清理：删除超过配置保留天数的邮件。")
    ∷ ("descApiKeyRegenerate", "重新生成集成 API 密钥。旧密钥立即失效，新密钥仅显示一次。")
    ∷ ("descSetupComplete", "写入初始配置。仅在初始化前可用。")
    ∷ ("chainTestNote", "自动创建新地址，然后查询它的邮件列表。")
    ∷ ("destructiveNote", "危险接口仅做文档记录，不提供一键测试。")
    ∷ ("testSuccess", "成功")
    ∷ ("testFailed", "请求失败")
    ∷ ("closeResponse", "关闭")
    ∷ ("confirmDestructive", "此操作会修改或删除数据，确定继续吗？")
    ∷ ("binaryResponse", "二进制响应（{n} 字节），无法以文本显示。")
    ∷ ("fillParams", "请在上方填写参数后运行测试。")
    ∷ []
